-- ===== src/Server/ClientManager/Sending.antt =====
-- The loop of `send_to`, over a network with a log of the bytes that each descriptor was sent.
use mathlib.Core.Path.{subst}
use market_data_handle.Prelude.{
  ℕ, zero, suc, ◌+◌, ◌≡◌, ◌≢◌, ◌≤◌, ◌<◌, refl, sym, ap, ◌∙◌, List, [], ◌∷◌, ◌++◌, length, take,
  drop, length-drop, append-nil, append_assoc, arith, inl, inr,
}
use market_data_handle.Server.Exchange.{SendResult, SendEnd, finished, slow, dead}
use market_data_handle.Server.Exchange.Send.{Effect, SendResult-cases, take-drop_add}
use market_data_handle.Server.ClientManager.{send_rest}

-- How the loop of `send_to` ends: the part of the bytes that the client's log has gained.
pub record Sent (fd : ℕ) (bs : List ℕ) (before after : ℕ → List ℕ) (end : SendEnd)
    (total sent_total : ℕ) : Type 0 where
  pub count : ℕ
  pub counted : sent_total ≡ total + count
  pub within : count ≤ length bs
  pub gained : after fd ≡ before fd ++ take count bs
  pub others : (other : ℕ) → other ≢ fd → after other ≡ before other
  pub whole : end ≡ finished → count ≡ length bs
  pub part : end ≡ slow → count < length bs
  pub lost : end ≡ dead → count < length bs

-- A call of `send` that took nothing.
nothing-Sent :
    (fd b : ℕ) (bs : List ℕ) (total : ℕ) (before after : ℕ → List ℕ) (end : SendEnd)
    → ((other : ℕ) → after other ≡ before other)
    → (end ≡ finished → 0 ≡ length (b ∷ bs))
    → Sent fd (b ∷ bs) before after end total total
nothing-Sent fd b bs total before after end same unfinished = record {
  count = 0;
  counted = omega arith;
  within = omega arith;
  gained = same fd ∙ sym (append-nil _);
  others = λ other ne. same other;
  whole = unfinished;
  part = λ cut. omega arith;
  lost = λ cut. omega arith;
}

module _ {N : Type 0} (send : ℕ → List ℕ → N → SendResult × N) (log : N → ℕ → List ℕ)
    (network : (fd b : ℕ) (bs : List ℕ) (net : N)
      → let (r, after) = send fd (b ∷ bs) net in Effect fd (b ∷ bs) (log net) (log after) r) where
  pub send_rest-Sent :
      (rounds fd : ℕ) (bs : List ℕ) (total : ℕ) (net : N)
      → length bs ≤ rounds
      → let r = send_rest send rounds fd bs total net in
        Sent fd bs (log net) (log r.2) r.0 total r.1
  unfolding send_rest
  send_rest-Sent rounds fd [] total net le = record {
    count = 0;
    counted = omega arith;
    within = omega arith;
    gained = sym (append-nil _);
    others = λ other ne. refl;
    whole = λ e. refl;
    part = λ bad. cc;
    lost = λ bad. cc;
  }
  send_rest-Sent zero fd (b ∷ bs) total net le = absurd (omega arith)
  send_rest-Sent (suc rounds) fd (b ∷ bs) total net le =
      let net' : N = (send fd (b ∷ bs) net).1 in
      elim (SendResult-cases (send fd (b ∷ bs) net).0) [
        | inl (n, e) ↦
            rw (e, send_rest)
              (let (pos, most, got, same) =
                  subst (Effect fd (b ∷ bs) (log net) (log net')) e (network fd b bs net) in
                let rest =
                  send_rest-Sent rounds fd (drop n (b ∷ bs)) (total + n) net'
                    (omega (arith, length-drop n (b ∷ bs))) in
                record {
                  count = n + rest.count;
                  counted = omega (arith, rest.counted);
                  within = omega (arith, rest.within, length-drop n (b ∷ bs));
                  gained =
                      rest.gained
                      ∙ ap (λ t. t ++ take rest.count (drop n (b ∷ bs))) got
                      ∙ append_assoc (log net fd) (take n (b ∷ bs)) _
                      ∙ ap (λ t. log net fd ++ t) (take-drop_add n rest.count (b ∷ bs));
                  others = λ other ne. rest.others other ne ∙ same other ne;
                  whole = λ done. omega (arith, rest.whole done, length-drop n (b ∷ bs));
                  part = λ cut. omega (arith, rest.part cut, length-drop n (b ∷ bs));
                  lost = λ cut. omega (arith, rest.lost cut, length-drop n (b ∷ bs));
                })
        | inr (inl e) ↦
            let same = subst (Effect fd (b ∷ bs) (log net) (log net')) e (network fd b bs net) in
            rw (e, send_rest)
              (nothing-Sent fd b bs total (log net) (log net') slow same (λ bad. cc))
        | inr (inr e) ↦
            let same = subst (Effect fd (b ∷ bs) (log net) (log net')) e (network fd b bs net) in
            rw (e, send_rest)
              (nothing-Sent fd b bs total (log net) (log net') dead same (λ bad. cc))
      ]
