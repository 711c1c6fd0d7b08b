-- ===== src/Client/Kernel.antt =====
-- The system calls of src/client/socket.cpp, which are not part of the repository, as a parameter
-- over a state `W` of the outside. A call that fails with -1 returns `none` or `false`.
use market_data_handle.Prelude.{
  ℕ, ◌≡◌, Bool, false, Option, none, some, List, ◌==◌, ◌||◌, if◌then◌else◌,
}

-- A descriptor, or -1.
abbrev pub Fd : Type 0
Fd = Option ℕ

pub data RecvResult : Type 0 where
  received : List ℕ → RecvResult
  end_of_stream : RecvResult
  would_block : RecvResult
  recv_failed : RecvResult

pub data SockOpt : Type 0 where
  tcp_nodelay : SockOpt
  recv_buffer : SockOpt
  priority : SockOpt

pub data EpollOp : Type 0 where
  ctl_add : EpollOp
  ctl_mod : EpollOp

-- `EPOLLOUT | EPOLLET`, and `EPOLLIN | EPOLLET | EPOLLRDHUP`.
pub data Interest : Type 0 where
  writable : Interest
  readable : Interest

pub record Kernel (W : Type 0) : Type 0 where
  pub socket : W → Fd × W
  pub close : ℕ → W → W
  pub set_option : Fd → SockOpt → ℕ → W → Bool × W
  pub parse_address : List ℕ → Option ℕ  -- inet_pton
  pub begin_connect : ℕ → ℕ → ℕ → W → Bool × W
  pub epoll_create : W → Fd × W
  pub epoll_ctl : ℕ → EpollOp → ℕ → Interest → W → W
  pub epoll_wait : Fd → ℕ → W → Option ℕ × W
  pub socket_error : ℕ → W → ℕ × W
  pub recv : Fd → ℕ → W → RecvResult × W
  pub send : Fd → List ℕ → W → Option ℕ × W
  pub sleep_for : ℕ → W → W

-- A call that makes a descriptor opens it and no other, and it was not open; when it fails, it
-- opens none.
abbrev pub Opens : {W : Type 0} → (W → ℕ → Bool) → W → Fd → W → Type 0
Opens is_open w none w' = (d : ℕ) → is_open w' d ≡ is_open w d
Opens is_open w (some fd) w' =
    (is_open w fd ≡ false) × ((d : ℕ) → is_open w' d ≡ (fd == d || is_open w d))

-- What the calls do to the descriptors of the process.
pub record Descriptors {W : Type 0} (k : Kernel W) : Type 0 where
  pub is_open : W → ℕ → Bool
  pub socket_opens : (w : W) → Opens is_open w (k.socket w).0 (k.socket w).1
  pub epoll_create_opens : (w : W) → Opens is_open w (k.epoll_create w).0 (k.epoll_create w).1
  pub close_closes :
      (fd : ℕ) (w : W) (d : ℕ) → is_open (k.close fd w) d ≡ (if fd == d then false else is_open w d)
  pub set_option_keeps :
      (fd : Fd) (o : SockOpt) (v : ℕ) (w : W) (d : ℕ)
      → is_open (k.set_option fd o v w).1 d ≡ is_open w d
  pub begin_connect_keeps :
      (fd a p : ℕ) (w : W) (d : ℕ) → is_open (k.begin_connect fd a p w).1 d ≡ is_open w d
  pub epoll_ctl_keeps :
      (e : ℕ) (o : EpollOp) (fd : ℕ) (i : Interest) (w : W) (d : ℕ)
      → is_open (k.epoll_ctl e o fd i w) d ≡ is_open w d
  pub epoll_wait_keeps :
      (e : Fd) (t : ℕ) (w : W) (d : ℕ) → is_open (k.epoll_wait e t w).1 d ≡ is_open w d
  pub socket_error_keeps :
      (fd : ℕ) (w : W) (d : ℕ) → is_open (k.socket_error fd w).1 d ≡ is_open w d
  pub recv_keeps : (fd : Fd) (n : ℕ) (w : W) (d : ℕ) → is_open (k.recv fd n w).1 d ≡ is_open w d
  pub send_keeps :
      (fd : Fd) (xs : List ℕ) (w : W) (d : ℕ) → is_open (k.send fd xs w).1 d ≡ is_open w d
  pub sleep_for_keeps : (ms : ℕ) (w : W) (d : ℕ) → is_open (k.sleep_for ms w) d ≡ is_open w d
