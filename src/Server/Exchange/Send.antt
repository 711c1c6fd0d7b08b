-- ===== src/Server/Exchange/Send.antt =====
-- The sending loops of the exchange against a network that keeps a log of the bytes it took.
use mathlib.Core.Path.{subst}
use market_data_handle.Prelude.{
  ℕ, zero, suc, ◌+◌, ◌≤◌, ◌<◌, ◌≡◌, ◌≢◌, refl, sym, ap, ◌∙◌, true, false, List, [], ◌∷◌, ◌++◌, ◌⊎◌,
  inl, inr, length, take, drop, arith, append-nil, append_assoc, length-drop, member, member-append,
}
use market_data_handle.Server.Exchange.{
  TickSource, SendResult, accepted, would_block, failed, SendEnd, finished, slow, dead, Broadcast,
  send_loop, broadcast_loop, note_end,
}

-- What `send` did, seen in the log of each descriptor: it took a first part of the bytes, one at
-- least, or nothing; other descriptors saw nothing.
abbrev pub Effect : ℕ → List ℕ → (ℕ → List ℕ) → (ℕ → List ℕ) → SendResult → Type 0
Effect fd bs before after (accepted r) =
    (0 < r)
    × (r ≤ length bs)
    × (after fd ≡ before fd ++ take r bs)
    × ((other : ℕ) → other ≢ fd → after other ≡ before other)
Effect fd bs before after would_block = (other : ℕ) → after other ≡ before other
Effect fd bs before after failed = (other : ℕ) → after other ≡ before other

pub SendResult-cases :
    (r : SendResult) → ((n : ℕ) × (r ≡ accepted n)) ⊎ ((r ≡ would_block) ⊎ (r ≡ failed))
SendResult-cases (accepted n) = inl (n, refl)
SendResult-cases would_block = inr (inl refl)
SendResult-cases failed = inr (inr refl)

take_nil : (n : ℕ) → take {A = ℕ} n [] ≡ []
take_nil zero = refl
take_nil (suc n) = refl

pub take-drop_add : (n k : ℕ) (bs : List ℕ) → take n bs ++ take k (drop n bs) ≡ take (n + k) bs
take-drop_add zero k bs = ap (λ j. take j bs) (omega arith)
take-drop_add (suc n) k [] = take_nil k ∙ sym (take_nil (suc n + k))
take-drop_add (suc n) k (b ∷ bs) =
    ap (λ t. b ∷ t) (take-drop_add n k bs)
    ∙ ap (λ j. take j (b ∷ bs)) {x = suc (n + k)} {y = suc n + k} (omega arith)

-- The end of the sending loop for one client: the part of the bytes that its log has gained.
pub record Sent (fd : ℕ) (bs : List ℕ) (before after : ℕ → List ℕ) (end : SendEnd) : Type 0 where
  pub count : ℕ
  pub gained : after fd ≡ before fd ++ take count bs
  pub others : (other : ℕ) → other ≢ fd → after other ≡ before other
  pub whole : end ≡ finished → count ≡ length bs

-- How one client stands in the outcome of a broadcast: it got the whole message, or a first part
-- of it and then is among the slow ones or among those to drop.
pub record Reached {N : Type 0} (fd : ℕ) (bs : List ℕ) (before after : ℕ → List ℕ) (b : Broadcast N)
    : Type 0 where
  pub count : ℕ
  pub gained : after fd ≡ before fd ++ take count bs
  pub marked : (count ≡ length bs) ⊎ ((member fd b.slow_fds ≡ true) ⊎ (member fd b.to_drop ≡ true))

note_end_keeps :
    {N : Type 0} (fd f : ℕ) (end : SendEnd) (net : N) (b : Broadcast N)
    → (member fd b.slow_fds ≡ true → member fd (note_end f end net b).slow_fds ≡ true)
      × (member fd b.to_drop ≡ true → member fd (note_end f end net b).to_drop ≡ true)
unfolding note_end
note_end_keeps fd f finished net b = (λ h. h, λ h. h)
note_end_keeps fd f slow net b = (λ h. ground arith, λ h. h)
note_end_keeps fd f dead net b = (λ h. h, λ h. ground (arith, member-append fd b.to_drop (f ∷ [])))

pub note_end-net :
    {N : Type 0} (f : ℕ) (end : SendEnd) (net : N) (b : Broadcast N)
    → (note_end f end net b).net ≡ net
unfolding note_end
note_end-net f finished net b = refl
note_end-net f slow net b = refl
note_end-net f dead net b = refl

pub note_end_marks :
    {N : Type 0} (f : ℕ) (end : SendEnd) (net : N) (b : Broadcast N)
    → (end ≡ finished)
      ⊎ ((member f (note_end f end net b).slow_fds ≡ true)
          ⊎ (member f (note_end f end net b).to_drop ≡ true))
unfolding note_end
note_end_marks f finished net b = inl refl
note_end_marks f slow net b = inr (inl (ground arith))
note_end_marks f dead net b = inr (inr (ground (arith, member-append f b.to_drop (f ∷ []))))

module _ {G N : Type 0} (src : TickSource G) (send : ℕ → List ℕ → N → SendResult × N)
    (log : N → ℕ → List ℕ)
    (network : (fd b : ℕ) (bs : List ℕ) (net : N)
      → let (r, after) = send fd (b ∷ bs) net in Effect fd (b ∷ bs) (log net) (log after) r) where
  -- The loop ends within as many rounds as there are bytes.
  pub send_loop-Sent :
      (rounds fd : ℕ) (bs : List ℕ) (net : N)
      → length bs ≤ rounds
      → let after = send_loop src send rounds fd bs net in
        Sent fd bs (log net) (log after.1) after.0
  unfolding send_loop
  send_loop-Sent rounds fd [] net le = record {
    count = 0;
    gained = sym (append-nil _);
    others = λ other ne. refl;
    whole = λ e. refl;
  }
  send_loop-Sent zero fd (b ∷ bs) net le = absurd (omega arith)
  send_loop-Sent (suc rounds) fd (b ∷ bs) net le =
      let net' : N = (send fd (b ∷ bs) net).1 in
      elim (SendResult-cases (send fd (b ∷ bs) net).0) [
        | inl (n, e) ↦
            rw (e, send_loop)
              (let (pos, most, got, same) =
                  subst (Effect fd (b ∷ bs) (log net) (log net')) e (network fd b bs net) in
                let rest =
                  send_loop-Sent rounds fd (drop n (b ∷ bs)) net'
                    (omega (arith, length-drop n (b ∷ bs))) in
                record {
                  count = n + rest.count;
                  gained =
                      rest.gained
                      ∙ ap (λ t. t ++ take rest.count (drop n (b ∷ bs))) got
                      ∙ append_assoc (log net fd) (take n (b ∷ bs)) _
                      ∙ ap (λ t. log net fd ++ t) (take-drop_add n rest.count (b ∷ bs));
                  others = λ other ne. rest.others other ne ∙ same other ne;
                  whole = λ done. omega (arith, rest.whole done, length-drop n (b ∷ bs));
                })
        | inr (inl e) ↦
            let same = subst (Effect fd (b ∷ bs) (log net) (log net')) e (network fd b bs net) in
            rw (e, send_loop)
              (record {
                count = 0;
                gained = same fd ∙ sym (append-nil _);
                others = λ other ne. same other;
                whole = λ bad. cc;
              })
        | inr (inr e) ↦
            let same = subst (Effect fd (b ∷ bs) (log net) (log net')) e (network fd b bs net) in
            rw (e, send_loop)
              (record {
                count = 0;
                gained = same fd ∙ sym (append-nil _);
                others = λ other ne. same other;
                whole = λ bad. cc;
              })
      ]

  pub broadcast_loop_keeps :
      (bytes fds : List ℕ) (fd : ℕ) (b : Broadcast N)
      → let after = broadcast_loop src send bytes fds b in
        (member fd b.slow_fds ≡ true → member fd after.slow_fds ≡ true)
        × (member fd b.to_drop ≡ true → member fd after.to_drop ≡ true)
  unfolding broadcast_loop
  broadcast_loop_keeps bytes [] fd b = (λ h. h, λ h. h)
  broadcast_loop_keeps bytes (f ∷ fds) fd b =
      let step = send_loop src send (length bytes) f bytes b.net in
      let next = note_end f step.0 step.1 b in
      let (slow_on, drop_on) = note_end_keeps fd f step.0 step.1 b in
      let (slow_later, drop_later) = broadcast_loop_keeps bytes fds fd next in
      (λ h. slow_later (slow_on h), λ h. drop_later (drop_on h))

  pub broadcast_loop_untouched :
      (bytes fds : List ℕ) (fd : ℕ) (b : Broadcast N)
      → member fd fds ≡ false
      → log (broadcast_loop src send bytes fds b).net fd ≡ log b.net fd
  unfolding broadcast_loop
  broadcast_loop_untouched bytes [] fd b out = refl
  broadcast_loop_untouched bytes (f ∷ fds) fd b out =
      let step = send_loop src send (length bytes) f bytes b.net in
      let next = note_end f step.0 step.1 b in
      let ne : fd ≢ f = λ e. ground arith in
      broadcast_loop_untouched bytes fds fd next (ground arith)
      ∙ ap (λ n. log n fd) (note_end-net f step.0 step.1 b)
      ∙ (send_loop-Sent (length bytes) f bytes b.net (omega arith)).others fd ne
