-- ===== src/Client/Socket/Local.antt =====
-- A small outside world for the examples: it hands out fresh descriptors, and answers connections
-- and `recv` from scripts.
use market_data_handle.Prelude.{
  ℕ, suc, ◌≤◌, ◌≡◌, refl, Bool, true, false, Option, some, List, [], ◌∷◌, max, length, member,
  erase, member-erase, arith,
}
use market_data_handle.Client.Kernel.{Kernel, Descriptors, Opens, RecvResult, would_block}

pub record Local : Type 0 where
  pub open_fds : List ℕ
  pub accepts : List Bool
  pub answers : List RecvResult

abbrev pub above : List ℕ → ℕ
above [] = 0
above (x ∷ xs) = max (suc x) (above xs)

member-above : (d : ℕ) (xs : List ℕ) → above xs ≤ d → member d xs ≡ false
member-above d [] h = refl
member-above d (x ∷ xs) h = ground (arith, member-above d xs)

abbrev pub open_fresh : Local → Option ℕ × Local
open_fresh w = (some (above w.open_fds), record w { open_fds = above w.open_fds ∷ w.open_fds })

abbrev pub next_accept : Local → Bool × Local
next_accept w = elim w.accepts [ [] ↦ (true, w) | b ∷ bs ↦ (b, record w { accepts = bs }) ]

abbrev pub next_answer : Local → RecvResult × Local
next_answer w = elim w.answers [ [] ↦ (would_block, w) | r ∷ rs ↦ (r, record w { answers = rs }) ]

abbrev pub local_kernel : Kernel Local
local_kernel = record {
  socket = open_fresh;
  close = λ fd w. record w { open_fds = erase fd w.open_fds };
  set_option = λ fd o v w. (true, w);
  parse_address = λ host. some 1;
  begin_connect = λ fd a p w. next_accept w;
  epoll_create = open_fresh;
  epoll_ctl = λ e o fd i w. w;
  epoll_wait = λ e t w. (some 1, w);
  socket_error = λ fd w. (0, w);
  recv = λ fd n w. next_answer w;
  send = λ fd xs w. (some (length xs), w);
  sleep_for = λ ms w. w;
}

pub next_accept_keeps :
    (w : Local) (d : ℕ) → member d (next_accept w).1.open_fds ≡ member d w.open_fds
next_accept_keeps w d = ground arith

pub next_answer_keeps :
    (w : Local) (d : ℕ) → member d (next_answer w).1.open_fds ≡ member d w.open_fds
next_answer_keeps w d = ground arith

pub open_fresh-Opens :
    (w : Local) → Opens (λ v d. member d v.open_fds) w (open_fresh w).0 (open_fresh w).1
open_fresh-Opens w = (member-above (above w.open_fds) w.open_fds (omega arith), λ d. ground arith)

abbrev pub local_descriptors : Descriptors local_kernel
local_descriptors = record {
  is_open = λ w d. member d w.open_fds;
  socket_opens = open_fresh-Opens;
  epoll_create_opens = open_fresh-Opens;
  close_closes = λ fd w d. member-erase fd d w.open_fds;
  set_option_keeps = λ fd o v w d. refl;
  begin_connect_keeps = λ fd a p w d. next_accept_keeps w d;
  epoll_ctl_keeps = λ e o fd i w d. refl;
  epoll_wait_keeps = λ e t w d. refl;
  socket_error_keeps = λ fd w d. refl;
  recv_keeps = λ fd n w d. next_answer_keeps w d;
  send_keeps = λ fd xs w d. refl;
  sleep_for_keeps = λ ms w d. refl;
}
