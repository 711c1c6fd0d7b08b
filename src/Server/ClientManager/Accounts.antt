-- ===== src/Server/ClientManager/Accounts.antt =====
-- What the book says of each client against what the client was sent.
use mathlib.Core.Path.{subst}
use native.Mathlib.Decide.{ℕ_discrete}
use market_data_handle.Prelude.{
  ℕ, ◌≡◌, ◌≢◌, ◌≤◌, ◌<◌, refl, sym, ap, ◌∙◌, Bool, true, false, Option, none, some, List, [], ◌∷◌,
  ◌++◌, if◌then◌else◌, length, take, arith, inl, inr, ◌⊎◌, Option-cases, member, member-append,
  NoDup,
}
use market_data_handle.Server.Exchange.{SendResult}
use market_data_handle.Server.Exchange.Send.{Effect}
use market_data_handle.Server.ClientManager.{
  ClientInfo, ClientManager, find, send_rest, send_to, send_each, fds_of, broadcast,
}
use market_data_handle.Server.ClientManager.Book.{
  account, conclude_entry, conclude_others, find-fd, remove_all-find, find-member,
}
use market_data_handle.Server.ClientManager.Sending.{send_rest-Sent}

module _ {N : Type 0} (send : ℕ → List ℕ → N → SendResult × N) (log : N → ℕ → List ℕ)
    (network : (fd b : ℕ) (bs : List ℕ) (net : N)
      → let (r, after) = send fd (b ∷ bs) net in Effect fd (b ∷ bs) (log net) (log after) r) where
  -- What one message does to the account of its client.
  record Accounted (fd : ℕ) (bytes : List ℕ) (c : ClientInfo) (m after : ClientManager)
      (net net' : N) (ok : Bool) : Type 0 where
    count : ℕ
    gained : log net' fd ≡ log net fd ++ take count bytes
    within : count ≤ length bytes
    entry :
        ((ok ≡ true) × (find fd after.clients ≡ some (account c count (length bytes))))
        ⊎ ((ok ≡ false) × (count < length bytes))

  send_to_others :
      (fd : ℕ) (bytes : List ℕ) (m : ClientManager) (net : N)
      → let (ok, after, net') = send_to send fd bytes (m, net) in
        (fds_of after.clients ≡ fds_of m.clients)
        × ((other : ℕ)
            → other ≢ fd
            → (find other after.clients ≡ find other m.clients) × (log net' other ≡ log net other))
  unfolding send_to
  send_to_others fd bytes m net = elim (Option-cases (find fd m.clients)) [
    | inl e ↦ rw (e, send_to) (refl, λ other ne. (refl, refl))
    | inr (c, e) ↦
        let r = send_rest send (length bytes) fd bytes 0 net in
        let sent = send_rest-Sent send log network (length bytes) fd bytes 0 net (omega arith) in
        let (fds, kept) = conclude_others r.0 r.1 (length bytes) c m in
        let own = find-fd fd m.clients c e in
        rw (e, send_to)
          (fds, λ other ne. (kept other (λ same. ne (same ∙ own)), sent.others other ne))
  ]

  send_to-Accounted :
      (fd : ℕ) (bytes : List ℕ) (c : ClientInfo) (m : ClientManager) (net : N)
      → find fd m.clients ≡ some c
      → let (ok, after, net') = send_to send fd bytes (m, net) in
        Accounted fd bytes c m after net net' ok
  unfolding send_to
  send_to-Accounted fd bytes c m net e =
      let r = send_rest send (length bytes) fd bytes 0 net in
      let sent = send_rest-Sent send log network (length bytes) fd bytes 0 net (omega arith) in
      let all : r.1 ≡ sent.count = omega (arith, sent.counted) in
      rw (e, send_to)
        (record {
          count = r.1;
          gained = sent.gained ∙ ap (λ n. log net fd ++ take n bytes) (sym all);
          within = omega (arith, all, sent.within);
          entry =
              conclude_entry fd r.0 r.1 (length bytes) c m (find-fd fd m.clients c e) e
                (λ done. all ∙ sent.whole done) (λ cut. omega (arith, all, sent.part cut))
                (λ cut. omega (arith, all, sent.lost cut));
        })

  send_each_others :
      (bytes fds to_remove : List ℕ) (m : ClientManager) (net : N) (fd : ℕ)
      → member fd fds ≡ false
      → let (gone, after, net') = send_each send bytes fds to_remove (m, net) in
        (find fd after.clients ≡ find fd m.clients)
        × (log net' fd ≡ log net fd)
        × (member fd gone ≡ member fd to_remove)
  unfolding send_each
  send_each_others bytes [] to_remove m net fd out = (refl, refl, refl)
  send_each_others bytes (f ∷ fds) to_remove m net fd out =
      let r = send_to send f bytes (m, net) in
      let (same, kept) = send_to_others f bytes m net in
      let (entry, got) = kept fd (ground (arith, out)) in
      let (found, logged, listed) =
        send_each_others bytes fds (if r.0 then to_remove else to_remove ++ (f ∷ [])) r.1 r.2 fd
          (ground (arith, out)) in
      (
        found ∙ entry,
        logged ∙ got,
        ground (arith, out, listed, member-append fd to_remove (f ∷ [])),
      )

  -- What a round of messages does to the account of a client that `gone` may list.
  abbrev Reached : ℕ → List ℕ → ClientInfo → N → N → Option ClientInfo → Bool → Type 0
  Reached fd bytes c net net' entry gone =
      (n : ℕ) × (n ≤ length bytes)
      × (log net' fd ≡ log net fd ++ take n bytes)
      × (((gone ≡ false) × (entry ≡ some (account c n (length bytes))))
          ⊎ ((gone ≡ true) × (n < length bytes)))

  send_each-Reached :
      (bytes fds to_remove : List ℕ) (m : ClientManager) (net : N) (fd : ℕ) (c : ClientInfo)
      → NoDup fds
      → member fd fds ≡ true
      → member fd to_remove ≡ false
      → find fd m.clients ≡ some c
      → let (gone, after, net') = send_each send bytes fds to_remove (m, net) in
        Reached fd bytes c net net' (find fd after.clients) (member fd gone)
  unfolding send_each
  send_each-Reached bytes [] to_remove m net fd c nd here new found = absurd cc
  send_each-Reached bytes (f ∷ fds) to_remove m net fd c (out, nd) here new found =
      let r = send_to send f bytes (m, net) in
      let listed = if r.0 then to_remove else to_remove ++ (f ∷ []) in
      elim (ℕ_discrete fd f) [
        | yes e ↦
            let found' : find f m.clients ≡ some c =
              subst (λ g. find g m.clients ≡ some c) e found in
            let one = send_to-Accounted f bytes c m net found' in
            let (entry, got, gone) =
              send_each_others bytes fds listed r.1 r.2 fd
                (subst (λ g. member g fds ≡ false) (sym e) out) in
            let gained : log r.2 fd ≡ log net fd ++ take one.count bytes =
              subst (λ g. log r.2 g ≡ log net g ++ take one.count bytes) (sym e) one.gained in
            (
              one.count,
              one.within,
              got ∙ gained,
              elim one.entry [
                | inl (ok, stored) ↦
                    let kept : member fd listed ≡ false = ground (arith, ok, new) in
                    let now : find fd r.1.clients ≡ some (account c one.count (length bytes)) =
                      rw e stored in
                    inl (gone ∙ kept, entry ∙ now)
                | inr (bad, short) ↦
                    let lost : member fd listed ≡ true =
                      ground (arith, bad, e, member-append fd to_remove (f ∷ [])) in
                    inr (gone ∙ lost, short)
              ],
            )
        | no ne ↦
            let (same, kept) = send_to_others f bytes m net in
            let (entry, got) = kept fd ne in
            let (n, within, gained, what) =
              send_each-Reached bytes fds listed r.1 r.2 fd c nd (ground (arith, here, ne))
                (ground (arith, new, ne, member-append fd to_remove (f ∷ []))) (entry ∙ found) in
            (n, within, gained ∙ ap (λ t. t ++ take n bytes) got, what)
      ]

  -- Everyone in the book is sent to.
  send_each-fds_of :
      (bytes fds to_remove : List ℕ) (m : ClientManager) (net : N)
      → fds_of (send_each send bytes fds to_remove (m, net)).1.clients ≡ fds_of m.clients
  unfolding send_each
  send_each-fds_of bytes [] to_remove m net = refl
  send_each-fds_of bytes (f ∷ fds) to_remove m net =
      let r = send_to send f bytes (m, net) in
      let (same, kept) = send_to_others f bytes m net in
      send_each-fds_of bytes fds (if r.0 then to_remove else to_remove ++ (f ∷ [])) r.1 r.2 ∙ same

  -- Over any network with such a log, for a book with no descriptor twice, and a client in it: a
  -- broadcast appends the first n of the bytes, and nothing else, to the client's log. Then either the
  -- client is in the book, its bytes have grown by n and its messages by one, both modulo 2^64, and it
  -- is marked as slow just when n is not all; or it is not in the book, and n is not all.
  pub broadcast_accounts :
      (bytes : List ℕ) (m : ClientManager) (net : N) (fd : ℕ) (c : ClientInfo)
      → NoDup (fds_of m.clients)
      → find fd m.clients ≡ some c
      → let (after, net') = broadcast send bytes (m, net) in
        (n : ℕ) × (n ≤ length bytes)
        × (log net' fd ≡ log net fd ++ take n bytes)
        × ((find fd after.clients ≡ some (account c n (length bytes)))
            ⊎ ((find fd after.clients ≡ none) × (n < length bytes)))
  unfolding broadcast
  broadcast_accounts bytes m net fd c nd found =
      let fds = fds_of m.clients in
      let s = send_each send bytes fds [] (m, net) in
      let (n, within, gained, what) =
        send_each-Reached bytes fds [] m net fd c nd (find-member fd m.clients c found) refl
          found in
      let left = remove_all-find s.0 s.1 fd (rw (send_each-fds_of bytes fds [] m net) nd) in
      (
        n,
        within,
        gained,
        elim what [
          | inl (kept, stored) ↦ inl (left ∙ rw kept stored)
          | inr (lost, short) ↦ inr (left ∙ rw lost refl, short)
        ],
      )
