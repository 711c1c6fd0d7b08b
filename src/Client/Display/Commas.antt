-- ===== src/Client/Display/Commas.antt =====
-- `fmt_large` groups digits in threes from the right.
use market_data_handle.Prelude.{
  ℕ, zero, suc, ◌+◌, ◌-◌, ◌/◌, ◌%◌, ◌≤◌, ◌<◌, ◌≡◌, refl, sym, ap, ap₂, ◌∙◌, true, List, [], ◌∷◌,
  ◌++◌, map, concat, append-nil, append_assoc, ltb, length, take, drop, All, All-append,
  length-take, length-drop, take-append-drop, take-append_self, drop-append_self, arith, Bool-cases,
  inl, inr,
}
use market_data_handle.Text.{to_string, digits}
use market_data_handle.Client.Display.{comma, insert_comma, comma_loop, fmt_large}

-- The first group, and each further one behind a comma.
abbrev pub with_commas : List ℕ → List (List ℕ) → List ℕ
with_commas g gs = g ++ concat (map (λ h. comma ∷ h) gs)

pub record Grouped (s out : List ℕ) : Type 0 where
  pub first : List ℕ
  pub others : List (List ℕ)
  pub shown : out ≡ with_commas first others
  pub same_digits : first ++ concat others ≡ s
  pub some_digit : 0 < length first
  pub three : length first ≤ 3
  pub threes : All (λ h. length h ≡ 3) others

concat-map_snoc :
    (gs : List (List ℕ)) (c : List ℕ)
    → concat (map (λ h. comma ∷ h) (gs ++ c ∷ [])) ≡ concat (map (λ h. comma ∷ h) gs) ++ comma ∷ c
concat-map_snoc [] c = ap (λ t. comma ∷ t) (append-nil c)
concat-map_snoc (h ∷ gs) c = simp (concat-map_snoc gs c, append_assoc)

concat_snoc : (gs : List (List ℕ)) (c : List ℕ) → concat (gs ++ c ∷ []) ≡ concat gs ++ c
concat_snoc [] c = append-nil c
concat_snoc (h ∷ gs) c = simp (concat_snoc gs c, append_assoc)

with_commas_snoc :
    (g c : List ℕ) (gs : List (List ℕ))
    → with_commas g (gs ++ c ∷ []) ≡ with_commas g gs ++ comma ∷ c
with_commas_snoc g c gs = simp (concat-map_snoc gs c, append_assoc)

comma_loop_stop : (fuel : ℕ) (s : List ℕ) → comma_loop fuel 0 s ≡ s
unfolding comma_loop
comma_loop_stop zero s = refl
comma_loop_stop (suc fuel) s = refl

insert_comma_lem : (a b : List ℕ) → insert_comma (length a) (a ++ b) ≡ a ++ comma ∷ b
unfolding insert_comma
insert_comma_lem a b =
    rw (take-append_self (length a) a b refl, drop-append_self (length a) a b refl) refl

-- With the digits `a` still to be grouped, in front of what follows the next comma.
comma_loop_groups :
    (fuel : ℕ) (a b : List ℕ)
    → 0 < length a
    → length a ≤ fuel
    → (g : List ℕ) × (gs : List (List ℕ)) × (comma_loop fuel (length a) (a ++ b)
        ≡ with_commas g gs ++ comma ∷ b)
      × (g ++ concat gs ≡ a)
      × (0 < length g)
      × (length g ≤ 3)
      × All (λ (h : List ℕ). length h ≡ 3) gs
unfolding comma_loop
comma_loop_groups zero a b pos enough = absurd (omega arith)
comma_loop_groups (suc fuel) a b pos enough =
    let going : ltb 0 (length a) ≡ true = ground arith in
    elim (Bool-cases (ltb 3 (length a))) [
      | inr few ↦
          let none_left : length a - 3 ≡ 0 = ground arith in
          (
            a,
            [],
            rw (going, none_left)
                (comma_loop_stop fuel _
                  ∙ insert_comma_lem a b
                  ∙ ap (λ t. t ++ comma ∷ b) (sym (append-nil a))),
            append-nil a,
            pos,
            ground arith,
            tt,
          )
      | inl many ↦
          let a' = take (length a - 3) a in
          let c = drop (length a - 3) a in
          let split : a' ++ c ≡ a = take-append-drop (length a - 3) a in
          let shorter : length a' ≡ length a - 3 = ground (arith, length-take (length a - 3) a) in
          let three : length c ≡ 3 = ground (arith, length-drop (length a - 3) a) in
          let (g, gs, shown, same, pos', small, threes) =
            comma_loop_groups fuel a' (c ++ comma ∷ b) (ground (arith, shorter))
              (ground (arith, shorter)) in
          let whole : a' ++ (c ++ comma ∷ b) ≡ a ++ comma ∷ b =
            sym (append_assoc a' c (comma ∷ b)) ∙ ap (λ t. t ++ comma ∷ b) split in
          (
            g,
            gs ++ c ∷ [],
            rw going (
                ap₂ (λ (n : ℕ) (t : List ℕ). comma_loop fuel n t) (sym shorter)
                  (insert_comma_lem a b ∙ sym whole)
                ∙ shown
                ∙ sym (
                    ap (λ t. t ++ comma ∷ b) (with_commas_snoc g c gs)
                    ∙ append_assoc (with_commas g gs) (comma ∷ c) (comma ∷ b))),
            rw (concat_snoc gs c)
                (sym (append_assoc g (concat gs) c) ∙ ap (λ t. t ++ c) same ∙ split),
            pos',
            small,
            All-append (λ (h : List ℕ). length h ≡ 3) gs (c ∷ []) threes (three, tt),
          )
    ]

some_digits : (fuel n : ℕ) (acc : List ℕ) → 0 < length acc → 0 < length (digits fuel n acc)
unfolding digits
some_digits zero n acc h = h
some_digits (suc fuel) n acc h = ground (arith, some_digits fuel (n / 10) ((b'0' + n % 10) ∷ acc))

first_digit : (fuel n : ℕ) → 0 < length (digits (suc fuel) n [])
unfolding digits
first_digit fuel n = ground (arith, some_digits fuel (n / 10) ((b'0' + n % 10) ∷ []))

to_string_digit : (n : ℕ) → 0 < length (to_string n)
unfolding to_string
to_string_digit n = first_digit 19 n

-- `fmt_large` shows the decimal digits of a number and nothing else but commas, which part them, from
-- the right, into groups of three; the first group has one to three digits, and no comma in front.
pub fmt_large-Grouped : (n : ℕ) → Grouped (to_string n) (fmt_large n)
unfolding fmt_large
fmt_large-Grouped n =
    let s = to_string n in
    let pos = to_string_digit n in
    elim (Bool-cases (ltb 3 (length s))) [
      | inr few ↦
          let none_left : length s - 3 ≡ 0 = ground arith in
          record {
            first = s;
            others = [];
            shown =
                ap (λ ins. comma_loop (length s) ins s) none_left
                ∙ comma_loop_stop (length s) s
                ∙ sym (append-nil s);
            same_digits = append-nil s;
            some_digit = pos;
            three = ground arith;
            threes = tt;
          }
      | inl many ↦
          let a = take (length s - 3) s in
          let b = drop (length s - 3) s in
          let split : a ++ b ≡ s = take-append-drop (length s - 3) s in
          let shorter : length a ≡ length s - 3 = ground (arith, length-take (length s - 3) s) in
          let last : length b ≡ 3 = ground (arith, length-drop (length s - 3) s) in
          let (g, gs, shown, same, some_digit, small, threes) =
            comma_loop_groups (length s) a b (ground (arith, shorter)) (omega (arith, shorter)) in
          record {
            first = g;
            others = gs ++ b ∷ [];
            shown =
                ap₂ (λ (n : ℕ) (t : List ℕ). comma_loop (length s) n t) (sym shorter) (sym split)
                ∙ shown
                ∙ sym (with_commas_snoc g b gs);
            same_digits =
                rw (concat_snoc gs b)
                  (sym (append_assoc g (concat gs) b) ∙ ap (λ t. t ++ b) same ∙ split);
            some_digit = some_digit;
            three = small;
            threes = All-append (λ (h : List ℕ). length h ≡ 3) gs (b ∷ []) threes (last, tt);
          }
    ]
