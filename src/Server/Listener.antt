-- ===== src/Server/Listener.antt =====
-- src/server/exchange_simulator.cpp: the constructor, `start` and the destructor, with the settings.
-- The system calls are a parameter over a state `W` of the outside. An exception is a value; the
-- destructor runs after it as after a normal end.
pub mod Release
pub mod Examples
use Prim.Native.Nat.{bit_or}
use market_data_handle.Prelude.{
  ℕ, ◌+◌, ◌*◌, ◌≡◌, Bool, true, false, Option, none, some, ◌==◌, ◌||◌, if◌then◌else◌,
}
use market_data_handle.Client.Kernel.{Fd, Opens}

pub data ServerOpt : Type 0 where
  reuse_addr : ServerOpt
  reuse_port : ServerOpt

pub record ServerKernel (W : Type 0) : Type 0 where
  pub socket : W → Fd × W
  pub set_option : ℕ → ServerOpt → ℕ → W → Bool × W
  pub bind : ℕ → ℕ → W → Bool × W
  pub listen : ℕ → ℕ → W → Bool × W
  pub get_flags : ℕ → W → Option ℕ × W
  pub set_flags : ℕ → ℕ → W → Bool × W
  pub epoll_create : W → Fd × W
  pub epoll_add : ℕ → ℕ → W → W
  pub close : ℕ → W → W

-- The exceptions of `start`.
pub data StartError : Type 0 where
  no_socket : StartError
  no_bind : StartError
  no_listen : StartError
  no_flags : StartError
  no_epoll : StartError

-- The members of the simulator beside the broadcast's.
pub record Listener : Type 0 where
  pub port : ℕ  -- uint16_t
  pub server_fd : Fd
  pub epoll_fd : Fd
  pub running : Bool
  pub tick_rate : ℕ  -- uint32_t

-- The constructor.
abbrev pub init : ℕ → Listener
init port = record {
  port = port;
  server_fd = none;
  epoll_fd = none;
  running = false;
  tick_rate = 100000;
}

unfoldable pub set_tick_rate : ℕ → Listener → Listener
set_tick_rate tps l = record l { tick_rate = tps }

abbrev pub o_nonblock : ℕ
o_nonblock = 2048

module _ {W : Type 0} (k : ServerKernel W) where
  -- Whether the function returns; otherwise it throws.
  unfoldable pub set_nonblocking : ℕ → W → Bool × W
  set_nonblocking fd w =
      let (flags, w) = k.get_flags fd w in
      elim flags [ none ↦ (false, w) | some f ↦ k.set_flags fd (bit_or f o_nonblock) w ]

  -- From the creation of the epoll instance on.
  unfoldable pub start_epoll : ℕ → Listener × W → Option StartError × (Listener × W)
  start_epoll fd (l, w) =
      let (made, w) = k.epoll_create w in
      elim made [
        | none ↦ (some no_epoll, (l, w))
        | some e ↦ (none, (record l { epoll_fd = some e; running = true }, k.epoll_add e fd w))
      ]

  -- From the options of the listening socket on.
  unfoldable pub start_listening : ℕ → Listener × W → Option StartError × (Listener × W)
  unfolding set_nonblocking
  start_listening fd (l, w) =
      let w1 = (k.set_option fd reuse_port 1 (k.set_option fd reuse_addr 1 w).1).1 in
      let bound = k.bind fd l.port w1 in
      let heard = k.listen fd 128 bound.1 in
      let free = set_nonblocking fd heard.1 in
      if bound.0
      then (if heard.0
          then (if free.0 then start_epoll fd (l, free.1) else (some no_flags, (l, free.1)))
          else (some no_listen, (l, heard.1)))
      else (some no_bind, (l, bound.1))

  unfoldable pub start : Listener × W → Option StartError × (Listener × W)
  unfolding start_listening start_epoll
  start (l, w) =
      let (made, w) = k.socket w in
      elim made [
        | none ↦ (some no_socket, (record l { server_fd = none }, w))
        | some fd ↦ start_listening fd (record l { server_fd = some fd }, w)
      ]

  abbrev pub close_own : Fd → W → W
  close_own none w = w
  close_own (some fd) w = k.close fd w

  unfoldable pub destroy : Listener × W → W
  destroy (l, w) = close_own l.epoll_fd (close_own l.server_fd w)

-- What the calls do to the descriptors of the process.
pub record ServerDescriptors {W : Type 0} (k : ServerKernel W) : Type 0 where
  pub is_open : W → ℕ → Bool
  pub socket_opens : (w : W) → Opens is_open w (k.socket w).0 (k.socket w).1
  pub epoll_create_opens : (w : W) → Opens is_open w (k.epoll_create w).0 (k.epoll_create w).1
  pub close_closes :
      (fd : ℕ) (w : W) (d : ℕ) → is_open (k.close fd w) d ≡ (if fd == d then false else is_open w d)
  pub set_option_keeps :
      (fd : ℕ) (o : ServerOpt) (v : ℕ) (w : W) (d : ℕ)
      → is_open (k.set_option fd o v w).1 d ≡ is_open w d
  pub bind_keeps : (fd p : ℕ) (w : W) (d : ℕ) → is_open (k.bind fd p w).1 d ≡ is_open w d
  pub listen_keeps : (fd n : ℕ) (w : W) (d : ℕ) → is_open (k.listen fd n w).1 d ≡ is_open w d
  pub get_flags_keeps : (fd : ℕ) (w : W) (d : ℕ) → is_open (k.get_flags fd w).1 d ≡ is_open w d
  pub set_flags_keeps : (fd f : ℕ) (w : W) (d : ℕ) → is_open (k.set_flags fd f w).1 d ≡ is_open w d
  pub epoll_add_keeps : (e fd : ℕ) (w : W) (d : ℕ) → is_open (k.epoll_add e fd w) d ≡ is_open w d
