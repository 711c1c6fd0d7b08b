-- ===== src/Parser/Faults.antt =====
-- What the parser does with input that is damaged, unknown or too long.
use market_data_handle.Prelude.{
  ℕ, ◌+◌, ◌-◌, ◌≤◌, ◌<◌, ◌≡◌, ◌≢◌, refl, sym, ap, ◌∙◌, some, List, [], ◌++◌, length, take, drop,
  set, get_or, All, arith, length-append, append_assoc, length-set, take-set, set-append_left,
  set-append_right, set_split, get_or-append_left, get_or-append_right, All-set, All-get_or,
  take-append_self, drop-append_self, IsByte, length-take, take_all, append-nil, get_or-set_self,
}
use native.Mathlib.Decide.{dec_lt}
use market_data_handle.Protocol.{
  Message, checksum_of, body_bytes, message_bytes, read_header, compute_checksum, msg_total_size,
  field_at, sizeof_header,
}
use market_data_handle.Protocol.Bytes.{
  le_bytes, le_value, le_value-le_bytes, le_value-injective, le_bytes-IsByte, length-le_bytes,
}
use market_data_handle.Protocol.Checksum.{compute_checksum-lt, compute_checksum_detects}
use market_data_handle.Protocol.Layout.{
  IsSealed, kind, length-body_bytes, read_header-message_bytes, body_bytes-IsByte,
}
use market_data_handle.Parser.{
  Stats, Parser, Handlers, reject, step, parse_buf_size, append_data, feed, run,
}
use market_data_handle.Parser.Stream.{settle}
use market_data_handle.Parser.Frames.{frame_size}

append_data-take :
    (buf xs : List ℕ)
    → length buf ≤ parse_buf_size
    → append_data buf xs ≡ append_data buf (take (parse_buf_size - length buf) xs)
unfolding append_data
append_data-take buf xs held = ground (
  arith,
  length-take (parse_buf_size - length buf) xs,
  take_all (parse_buf_size - length buf) xs,
  append-nil buf,
)

-- A block that does not fit is cut to the room that is left: nothing else changes, and no counter
-- or buffered byte is reset.
pub feed_overflow :
    (h : Handlers) (p : Parser) (xs : List ℕ)
    → length p.buf ≤ parse_buf_size
    → feed h p xs ≡ feed h p (take (parse_buf_size - length p.buf) xs)
unfolding feed
feed_overflow h p xs held =
    ap (λ b. settle (run h (length b) p.stats b)) (append_data-take p.buf xs held)

-- The sums of a list and of the list with one byte changed differ.
compute_checksum-set :
    (xs : List ℕ) (i y : ℕ)
    → i < length xs
    → All IsByte xs
    → IsByte y
    → y ≢ get_or xs i 0
    → compute_checksum (set xs i y) ≢ compute_checksum xs
compute_checksum-set xs i y lt bytes hy ne e =
    let (front, back, p, q) = set_split xs i y 0 lt in
    let old : IsByte (get_or xs i 0) = All-get_or IsByte xs i 0 (omega arith) bytes in
    compute_checksum_detects front back y (get_or xs i 0) hy old ne
      (sym (ap compute_checksum q) ∙ e ∙ ap compute_checksum p)

le_value-set :
    (xs : List ℕ) (i y : ℕ)
    → i < length xs
    → All IsByte xs
    → IsByte y
    → y ≢ get_or xs i 0
    → le_value (set xs i y) ≢ le_value xs
le_value-set xs i y lt bytes hy ne e =
    let same =
      le_value-injective (set xs i y) xs (All-set IsByte xs i y hy bytes) bytes (length-set xs i y)
        e in
    ne (sym (get_or-set_self xs i y 0 lt) ∙ ap (λ t. get_or t i 0) same)

-- A frame with a known type whose checksum does not match is dropped as a whole.
step_mismatch :
    (h : Handlers) (s : Stats) (body sum rest : List ℕ)
    → sizeof_header ≤ length body
    → length sum ≡ 4
    → msg_total_size (read_header (body ++ (sum ++ rest))).msg_type ≡ length body + 4
    → compute_checksum body ≢ le_value sum
    → step h s (body ++ (sum ++ rest)) ≡ some (reject s, rest, [])
unfolding step field_at
step_mismatch h s body sum rest wide four size ne =
    let back : length body + 4 - 4 ≡ length body = omega arith in
    let whole : drop (length body + 4) (body ++ (sum ++ rest)) ≡ rest =
      ap (drop (length body + 4)) (sym (append_assoc body sum rest))
      ∙ drop-append_self (length body + 4) (body ++ sum) rest
          (omega (arith, length-append body sum)) in
    rw
      (
        size,
        back,
        take-append_self (length body) body (sum ++ rest) refl,
        drop-append_self (length body) body (sum ++ rest) refl,
        take-append_self 4 sum rest (sym four),
        whole,
      )
      (ground (arith, length-append body (sum ++ rest), length-append sum rest))

-- The type code of a message is read as before when a later byte changes.
type_of_corrupted :
    (m : Message) (i y : ℕ) (rest : List ℕ)
    → IsSealed m
    → 2 ≤ i
    → i < length (message_bytes m)
    → (read_header (set (message_bytes m) i y ++ rest)).msg_type ≡ kind m
unfolding read_header field_at
type_of_corrupted m i y rest sealed lo hi =
    rw (← set-append_left (message_bytes m) rest i y hi, take-set 2 i _ y lo)
      (ap (λ r. r.msg_type) (read_header-message_bytes m rest sealed.header_fits) ∙ sealed.typed)

module _ (h : Handlers) (s : Stats) (m : Message) (y : ℕ) (rest : List ℕ) (sealed : IsSealed m)
    (hy : IsByte y) where
  abbrev sum : List ℕ
  sum = le_bytes 4 (checksum_of m)

  sum_value : le_value sum ≡ compute_checksum (body_bytes m)
  sum_value =
      le_value-le_bytes 4 _ (rw sealed.sealed (compute_checksum-lt (body_bytes m))) ∙ sealed.sealed

  corrupted_body :
      (i : ℕ)
      → i < length (body_bytes m)
      → y ≢ get_or (body_bytes m) i 0
      → (read_header (set (body_bytes m) i y ++ (sum ++ rest))).msg_type ≡ kind m
      → step h s (set (body_bytes m) i y ++ (sum ++ rest)) ≡ some (reject s, rest, [])
  corrupted_body i lt ne typed =
      let same = length-set (body_bytes m) i y in
      step_mismatch h s (set (body_bytes m) i y) sum rest
        (omega (arith, same, length-body_bytes m, frame_size m)) (length-le_bytes 4 (checksum_of m))
        (ap msg_total_size typed ∙ omega (arith, same, length-body_bytes m))
        (λ e.
          compute_checksum-set (body_bytes m) i y lt (body_bytes-IsByte m) hy ne (e ∙ sum_value))

  corrupted_sum :
      (j : ℕ)
      → j < 4
      → y ≢ get_or sum j 0
      → (read_header (body_bytes m ++ (set sum j y ++ rest))).msg_type ≡ kind m
      → step h s (body_bytes m ++ (set sum j y ++ rest)) ≡ some (reject s, rest, [])
  corrupted_sum j lt ne typed =
      step_mismatch h s (body_bytes m) (set sum j y) rest
        (omega (arith, length-body_bytes m, frame_size m)) (length-set sum j y)
        (ap msg_total_size typed ∙ omega (arith, length-body_bytes m))
        (λ e.
          le_value-set sum j y lt (le_bytes-IsByte 4 (checksum_of m)) hy ne (sym (sum_value ∙ e)))

  -- Changing any one byte behind the type code makes the parser drop the message: it counts one bad
  -- checksum, calls nothing, leaves the sequence state alone, and goes on right behind the message.
  pub step_corrupted :
      (i : ℕ)
      → 2 ≤ i
      → i < length (message_bytes m)
      → y ≢ get_or (message_bytes m) i 0
      → step h s (set (message_bytes m) i y ++ rest) ≡ some (reject s, rest, [])
  unfolding message_bytes
  step_corrupted i lo hi ne =
      let typed = type_of_corrupted m i y rest sealed lo hi in
      elim (dec_lt i (length (body_bytes m))) [
        | yes front ↦
            let split : set (message_bytes m) i y ++ rest
                ≡ set (body_bytes m) i y ++ (sum ++ rest) =
              ap (λ t. t ++ rest) (set-append_left (body_bytes m) sum i y front)
              ∙ append_assoc _ sum rest in
            let old = get_or-append_left (body_bytes m) sum i 0 front in
            rw split (corrupted_body i front (λ e. ne (e ∙ sym old)) (rw split at typed))
        | no back ↦
            let j : ℕ = i - length (body_bytes m) in
            let at : i ≡ length (body_bytes m) + j = omega arith in
            let split : set (message_bytes m) i y ++ rest ≡ body_bytes m ++ (set sum j y ++ rest) =
              ap (λ t. t ++ rest) (set-append_right (body_bytes m) sum i j y at)
              ∙ append_assoc _ _ rest in
            let old = get_or-append_right (body_bytes m) sum i j 0 at in
            let lt : j < 4 = omega (arith, length-append (body_bytes m) sum) in
            rw split (corrupted_sum j lt (λ e. ne (e ∙ sym old)) (rw split at typed))
      ]
