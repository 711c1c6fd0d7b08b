-- ===== src/Server/ClientManager/Book.antt =====
-- The map of the client manager: what `find` returns after the operations on it.
use native.Mathlib.Decide.{ℕ_discrete}
use market_data_handle.Prelude.{
  ℕ, ◌≡◌, ◌≢◌, refl, true, false, none, some, List, [], ◌∷◌, ◌==◌, if◌then◌else◌, arith, ◌<◌, u64,
  ◌+◌, not, inl, inr, Option-cases, Bool-cases, ◌⊎◌, member, NoDup,
}
use market_data_handle.Server.Exchange.{SendEnd, finished, slow, dead}
use market_data_handle.Server.ClientManager.{
  ClientInfo, ClientManager, close_account, conclude, find, store, erase_fd, fds_of, remove,
  remove_all,
}

pub find-fd : (fd : ℕ) (cs : List ClientInfo) (c : ClientInfo) → find fd cs ≡ some c → c.fd ≡ fd
find-fd fd [] c e = cc
find-fd fd (x ∷ cs) c e = ground (arith, e, find-fd fd cs c)

pub find-store_self :
    (fd : ℕ) (info c : ClientInfo) (cs : List ClientInfo)
    → info.fd ≡ fd
    → find fd cs ≡ some c
    → find fd (store info cs) ≡ some info
find-store_self fd info c [] same e = cc
find-store_self fd info c (x ∷ cs) same e =
    ground (arith, same, e, find-store_self fd info c cs same)

pub find-store_ne :
    (fd : ℕ) (info : ClientInfo) (cs : List ClientInfo)
    → fd ≢ info.fd
    → find fd (store info cs) ≡ find fd cs
find-store_ne fd info [] ne = refl
find-store_ne fd info (x ∷ cs) ne = ground (arith, ne, find-store_ne fd info cs ne)

pub fds_of-store : (info : ClientInfo) (cs : List ClientInfo) → fds_of (store info cs) ≡ fds_of cs
fds_of-store info [] = refl
fds_of-store info (x ∷ cs) = ground (arith, fds_of-store info cs)

pub find-member :
    (fd : ℕ) (cs : List ClientInfo) (c : ClientInfo)
    → find fd cs ≡ some c
    → member fd (fds_of cs) ≡ true
find-member fd [] c e = absurd cc
find-member fd (x ∷ cs) c e = ground (arith, e, find-member fd cs c)

find_out : (fd : ℕ) (cs : List ClientInfo) → member fd (fds_of cs) ≡ false → find fd cs ≡ none
find_out fd [] out = refl
find_out fd (x ∷ cs) out = ground (arith, out, find_out fd cs)

find-erase_ne :
    (fd gone : ℕ) (cs : List ClientInfo) → fd ≢ gone → find fd (erase_fd gone cs) ≡ find fd cs
find-erase_ne fd gone [] ne = refl
find-erase_ne fd gone (x ∷ cs) ne = ground (arith, ne, find-erase_ne fd gone cs ne)

find-erase_self :
    (fd : ℕ) (cs : List ClientInfo) → NoDup (fds_of cs) → find fd (erase_fd fd cs) ≡ none
find-erase_self fd [] nd = refl
find-erase_self fd (x ∷ cs) (out, nd) = elim (Bool-cases (fd == x.fd)) [
  | inl e ↦
      let absent : member fd (fds_of cs) ≡ false = ground (arith, e, out) in
      ground (arith, e, find_out fd cs absent)
  | inr e ↦ ground (arith, e, find-erase_self fd cs nd)
]

member-erase_fd :
    (y gone : ℕ) (cs : List ClientInfo)
    → member y (fds_of cs) ≡ false
    → member y (fds_of (erase_fd gone cs)) ≡ false
member-erase_fd y gone [] out = refl
member-erase_fd y gone (x ∷ cs) out = ground (arith, out, member-erase_fd y gone cs)

erase_fd-NoDup :
    (gone : ℕ) (cs : List ClientInfo) → NoDup (fds_of cs) → NoDup (fds_of (erase_fd gone cs))
erase_fd-NoDup gone [] nd = tt
erase_fd-NoDup gone (x ∷ cs) (out, nd) = elim (Bool-cases (gone == x.fd)) [
  | inl e ↦ rw e nd
  | inr e ↦ rw e (member-erase_fd x.fd gone cs out, erase_fd-NoDup gone cs nd)
]

remove_lem :
    (gone : ℕ) (m : ClientManager)
    → NoDup (fds_of m.clients)
    → NoDup (fds_of (remove gone m).clients)
      × (find gone (remove gone m).clients ≡ none)
      × ((fd : ℕ) → fd ≢ gone → find fd (remove gone m).clients ≡ find fd m.clients)
unfolding remove
remove_lem gone m nd = elim (Option-cases (find gone m.clients)) [
  | inl e ↦ rw (e, remove) (nd, e, λ fd ne. refl)
  | inr (c, e) ↦
      rw (e, remove)
        (
          erase_fd-NoDup gone m.clients nd,
          find-erase_self gone m.clients nd,
          λ fd ne. find-erase_ne fd gone m.clients ne,
        )
]

-- Whoever is to be removed is, and nobody else.
pub remove_all-find :
    (fds : List ℕ) (m : ClientManager) (fd : ℕ)
    → NoDup (fds_of m.clients)
    → find fd (remove_all fds m).clients ≡ (if member fd fds then none else find fd m.clients)
unfolding remove_all
remove_all-find [] m fd nd = refl
remove_all-find (gone ∷ fds) m fd nd =
    let (kept, out, others) = remove_lem gone m nd in
    let rest = remove_all-find fds (remove gone m) fd kept in
    elim (ℕ_discrete fd gone) [
      | yes e ↦
          let absent : find fd (remove gone m).clients ≡ none = rw e out in
          ground (arith, rest, e, absent)
      | no ne ↦ ground (arith, rest, ne, others fd ne)
    ]

-- The entry of a client that got `n` bytes of a message of `len`.
abbrev pub account : ClientInfo → ℕ → ℕ → ClientInfo
account c n len = record {
  fd = c.fd;
  bytes_sent = u64 (c.bytes_sent + n);
  msgs_sent = u64 (c.msgs_sent + 1);
  is_slow = not (n == len);
}

pub conclude_entry :
    (fd : ℕ) (end : SendEnd) (n len : ℕ) (c : ClientInfo) (m : ClientManager)
    → c.fd ≡ fd
    → find fd m.clients ≡ some c
    → (end ≡ finished → n ≡ len)
    → (end ≡ slow → n < len)
    → (end ≡ dead → n < len)
    → let (ok, after) = conclude end n len c m in
      ((ok ≡ true) × (find fd after.clients ≡ some (account c n len))) ⊎ ((ok ≡ false) × (n < len))
unfolding conclude close_account
conclude_entry fd finished n len c m same found whole part lost =
    let full : (n == len) ≡ true = ground (arith, whole refl) in
    inl (
      refl,
      rw full (
          find-store_self fd (record (account c n len) { is_slow = false }) c m.clients same found),
    )
conclude_entry fd slow n len c m same found whole part lost =
    let cut : (n == len) ≡ false = ground (arith, part refl) in
    inl (
      refl,
      rw cut
          (find-store_self fd (record (account c n len) { is_slow = true }) c m.clients same found),
    )
conclude_entry fd dead n len c m same found whole part lost = inr (refl, lost refl)

pub conclude_others :
    (end : SendEnd) (n len : ℕ) (c : ClientInfo) (m : ClientManager)
    → (fds_of (conclude end n len c m).1.clients ≡ fds_of m.clients)
      × ((fd : ℕ) → fd ≢ c.fd → find fd (conclude end n len c m).1.clients ≡ find fd m.clients)
unfolding conclude close_account
conclude_others finished n len c m =
    (fds_of-store _ m.clients, λ fd ne. find-store_ne fd _ m.clients ne)
conclude_others slow n len c m =
    (fds_of-store _ m.clients, λ fd ne. find-store_ne fd _ m.clients ne)
conclude_others dead n len c m = (refl, λ fd ne. refl)
