-- ===== src/Server/ClientManager.antt =====
-- src/server/client_manager.h and client_manager.cpp: the book of connected clients.
-- The map is an association list with at most one entry for each descriptor. `send` is a parameter,
-- as for the exchange. The address and the time of connection only go into log lines.
pub mod Balance
pub mod Book
pub mod Sending
pub mod Accounts
mod Examples
use market_data_handle.Prelude.{
  ℕ, zero, suc, ◌+◌, Bool, true, false, Option, none, some, List, [], ◌∷◌, ◌++◌, ◌==◌,
  if◌then◌else◌, length, drop, min, u64,
}
use market_data_handle.Server.Exchange.{
  SendResult, accepted, would_block, failed, SendEnd, finished, slow, dead,
}

pub record ClientInfo : Type 0 where
  pub fd : ℕ
  pub bytes_sent : ℕ  -- uint64_t, as the next
  pub msgs_sent : ℕ
  pub is_slow : Bool

pub record ClientManager : Type 0 where
  pub clients : List ClientInfo
  pub total_connected : ℕ  -- uint64_t, as the next two
  pub total_disconnected : ℕ
  pub total_slow : ℕ

abbrev pub init : ClientManager
init = record { clients = []; total_connected = 0; total_disconnected = 0; total_slow = 0 }

abbrev pub find : ℕ → List ClientInfo → Option ClientInfo
find fd [] = none
find fd (c ∷ cs) = if fd == c.fd then some c else find fd cs

abbrev pub erase_fd : ℕ → List ClientInfo → List ClientInfo
erase_fd fd [] = []
erase_fd fd (c ∷ cs) = let rest = erase_fd fd cs in if fd == c.fd then cs else c ∷ rest

-- A write through the iterator that `find` returned.
abbrev pub store : ClientInfo → List ClientInfo → List ClientInfo
store info [] = []
store info (c ∷ cs) = let rest = store info cs in if info.fd == c.fd then info ∷ cs else c ∷ rest

abbrev pub new_client : ℕ → ClientInfo
new_client fd = record { fd = fd; bytes_sent = 0; msgs_sent = 0; is_slow = false }

-- `registered` is whether `epoll_ctl` succeeded. `emplace` leaves an entry that is there alone.
unfoldable pub add : Bool → ℕ → ClientManager → Bool × ClientManager
add registered fd m =
    if registered
    then (
      true,
      record m {
        clients = elim (find fd m.clients) [
          | none ↦ new_client fd ∷ m.clients
          | some c ↦ m.clients
        ];
        total_connected = u64 (m.total_connected + 1);
      },
    )
    else (false, m)

unfoldable pub remove : ℕ → ClientManager → ClientManager
remove fd m = elim (find fd m.clients) [
  | none ↦ m
  | some c ↦ record m {
    clients = erase_fd fd m.clients;
    total_disconnected = u64 (m.total_disconnected + 1);
  }
]

abbrev pub is_blocked : SendEnd → Bool
is_blocked slow = true
is_blocked finished = false
is_blocked dead = false

-- The entry and the count of slow events when the loop of `send_to` ends with `sent_total`.
unfoldable pub close_account : SendEnd → ℕ → ℕ → ClientInfo → ClientManager → ClientManager
close_account end sent_total len c m =
    let full = sent_total == len in
    let blocked = is_blocked end in
    let marked = if blocked then true else c.is_slow in
    let counted =
      if blocked
      then (if c.is_slow then m.total_slow else u64 (m.total_slow + 1))
      else m.total_slow in
    let info : ClientInfo = record {
      fd = c.fd;
      bytes_sent = u64 (c.bytes_sent + sent_total);
      msgs_sent = u64 (c.msgs_sent + 1);
      is_slow = if full then false else marked;
    } in
    record m { clients = store info m.clients; total_slow = counted }

-- What `send_to` returns and leaves; a broken connection goes unaccounted.
unfoldable pub conclude : SendEnd → ℕ → ℕ → ClientInfo → ClientManager → Bool × ClientManager
unfolding close_account
conclude finished sent_total len c m = (true, close_account finished sent_total len c m)
conclude slow sent_total len c m = (true, close_account slow sent_total len c m)
conclude dead sent_total len c m = (false, m)

module _ {N : Type 0} (send : ℕ → List ℕ → N → SendResult × N) where
  -- The loop of `send_to`: how it ends, `sent_total`, and the network.
  unfoldable pub send_rest : ℕ → ℕ → List ℕ → ℕ → N → SendEnd × ℕ × N
  send_rest rounds fd [] sent_total net = (finished, sent_total, net)
  send_rest zero fd (b ∷ bs) sent_total net = (dead, sent_total, net)
  send_rest (suc rounds) fd (b ∷ bs) sent_total net =
      let (r, net') = send fd (b ∷ bs) net in
      elim r [
        | accepted n ↦ send_rest rounds fd (drop n (b ∷ bs)) (sent_total + n) net'
        | would_block ↦ (slow, sent_total, net')
        | failed ↦ (dead, sent_total, net')
      ]

  unfoldable pub send_to : ℕ → List ℕ → ClientManager × N → Bool × ClientManager × N
  unfolding send_rest conclude
  send_to fd bytes (m, net) = elim (find fd m.clients) [
    | none ↦ (false, m, net)
    | some c ↦
        let (end, sent_total, net') = send_rest (length bytes) fd bytes 0 net in
        let (ok, m') = conclude end sent_total (length bytes) c m in (ok, m', net')
  ]

  -- The first loop of `broadcast`, over the descriptors, with `to_remove` so far.
  unfoldable pub send_each :
      List ℕ → List ℕ → List ℕ → ClientManager × N → List ℕ × ClientManager × N
  unfolding send_to
  send_each bytes [] to_remove s = (to_remove, s.0, s.1)
  send_each bytes (fd ∷ fds) to_remove s =
      let (ok, m, net') = send_to fd bytes s in
      send_each bytes fds (if ok then to_remove else to_remove ++ (fd ∷ [])) (m, net')

abbrev pub fds_of : List ClientInfo → List ℕ
fds_of [] = []
fds_of (c ∷ cs) = c.fd ∷ fds_of cs

unfoldable pub remove_all : List ℕ → ClientManager → ClientManager
unfolding remove
remove_all [] m = m
remove_all (fd ∷ fds) m = remove_all fds (remove fd m)

module _ {N : Type 0} (send : ℕ → List ℕ → N → SendResult × N) where
  unfoldable pub broadcast : List ℕ → ClientManager × N → ClientManager × N
  unfolding send_each remove_all
  broadcast bytes (m, net) =
      let (to_remove, m', net') = send_each send bytes (fds_of m.clients) [] (m, net) in
      (remove_all to_remove m', net')
