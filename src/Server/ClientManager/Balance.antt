-- ===== src/Server/ClientManager/Balance.antt =====
-- The counters of the client manager against its book.
use market_data_handle.Prelude.{
  ℕ, ◌+◌, ◌<◌, ◌^◌, ◌≡◌, refl, ap, ◌∙◌, Bool, true, false, none, some, List, [], ◌∷◌, length, arith,
  Option-cases, inl, inr,
}
use market_data_handle.Server.Exchange.{SendResult, SendEnd, finished, slow, dead}
use market_data_handle.Server.ClientManager.{
  ClientInfo, ClientManager, find, erase_fd, store, add, remove, close_account, conclude, send_rest,
  send_to, send_each, fds_of, remove_all, broadcast,
}

-- Every connection that was counted is in the book or was counted as ended.
abbrev pub IsBalanced : ClientManager → Type 0
IsBalanced m =
    (length m.clients + m.total_disconnected ≡ m.total_connected) × (m.total_connected < 2 ^ 64)

length-store : (c : ClientInfo) (cs : List ClientInfo) → length (store c cs) ≡ length cs
length-store c [] = refl
length-store c (d ∷ cs) = ground (arith, length-store c cs)

length-erase_fd :
    (fd : ℕ) (cs : List ClientInfo) (c : ClientInfo)
    → find fd cs ≡ some c
    → length (erase_fd fd cs) + 1 ≡ length cs
length-erase_fd fd [] c h = absurd (ground arith)
length-erase_fd fd (d ∷ cs) c h = ground (arith, length-erase_fd fd cs c)

pub add-IsBalanced :
    (fd : ℕ) (registered : Bool) (m : ClientManager)
    → find fd m.clients ≡ none
    → m.total_connected + 1 < 2 ^ 64
    → IsBalanced m
    → IsBalanced (add registered fd m).1
unfolding add
add-IsBalanced fd true m absent room bal = rw absent (omega arith)
add-IsBalanced fd false m absent room bal = bal

pub remove-IsBalanced : (fd : ℕ) (m : ClientManager) → IsBalanced m → IsBalanced (remove fd m)
unfolding remove
remove-IsBalanced fd m bal = elim (Option-cases (find fd m.clients)) [
  | inl e ↦ rw (e, remove) bal
  | inr (c, e) ↦ rw (e, remove) (omega (arith, length-erase_fd fd m.clients c e))
]

remove_all-IsBalanced :
    (fds : List ℕ) (m : ClientManager) → IsBalanced m → IsBalanced (remove_all fds m)
unfolding remove_all
remove_all-IsBalanced [] m bal = bal
remove_all-IsBalanced (fd ∷ fds) m bal =
    remove_all-IsBalanced fds (remove fd m) (remove-IsBalanced fd m bal)

close_account-IsBalanced :
    (end : SendEnd) (n len : ℕ) (c : ClientInfo) (m : ClientManager)
    → IsBalanced m
    → IsBalanced (close_account end n len c m)
unfolding close_account
close_account-IsBalanced end n len c m bal =
    (ap (λ k. k + m.total_disconnected) (length-store _ m.clients) ∙ bal.0, bal.1)

conclude-IsBalanced :
    (end : SendEnd) (n len : ℕ) (c : ClientInfo) (m : ClientManager)
    → IsBalanced m
    → IsBalanced (conclude end n len c m).1
unfolding conclude
conclude-IsBalanced finished n len c m bal = close_account-IsBalanced finished n len c m bal
conclude-IsBalanced slow n len c m bal = close_account-IsBalanced slow n len c m bal
conclude-IsBalanced dead n len c m bal = bal

module _ {N : Type 0} (send : ℕ → List ℕ → N → SendResult × N) where
  send_to-IsBalanced :
      (fd : ℕ) (bytes : List ℕ) (m : ClientManager) (net : N)
      → IsBalanced m
      → IsBalanced (send_to send fd bytes (m, net)).1
  unfolding send_to
  send_to-IsBalanced fd bytes m net bal = elim (Option-cases (find fd m.clients)) [
    | inl e ↦ rw (e, send_to) bal
    | inr (c, e) ↦
        let r = send_rest send (length bytes) fd bytes 0 net in
        rw (e, send_to) (conclude-IsBalanced r.0 r.1 (length bytes) c m bal)
  ]

  send_each-IsBalanced :
      (bytes fds to_remove : List ℕ) (m : ClientManager) (net : N)
      → IsBalanced m
      → IsBalanced (send_each send bytes fds to_remove (m, net)).1
  unfolding send_each
  send_each-IsBalanced bytes [] to_remove m net bal = bal
  send_each-IsBalanced bytes (fd ∷ fds) to_remove m net bal =
      let r = send_to send fd bytes (m, net) in
      send_each-IsBalanced bytes fds _ r.1 r.2 (send_to-IsBalanced fd bytes m net bal)

  -- Whatever the sockets do with a broadcast, the book and the counters of connections balance after
  -- it when they did before: every connection that was counted is in the book or counted as ended.
  pub broadcast-IsBalanced :
      (bytes : List ℕ) (m : ClientManager) (net : N)
      → IsBalanced m
      → IsBalanced (broadcast send bytes (m, net)).0
  unfolding broadcast
  broadcast-IsBalanced bytes m net bal =
      let sent = send_each send bytes (fds_of m.clients) [] (m, net) in
      remove_all-IsBalanced sent.0 sent.1
        (send_each-IsBalanced bytes (fds_of m.clients) [] m net bal)
