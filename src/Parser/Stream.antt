-- ===== src/Parser/Stream.antt =====
-- The buffered parser against a plain description: the loop over the whole stream at once.
use market_data_handle.Prelude.{
  ℕ, ◌+◌, ◌≤◌, ◌<◌, ◌≡◌, refl, sym, ap, ◌∙◌, none, List, [], ◌∷◌, ◌++◌, length, concat, All, arith,
  append_assoc, append-nil,
}
use market_data_handle.Protocol.{max_msg_size}
use market_data_handle.Parser.{
  Parser, Handlers, Call, Outcome, init, parse_buf_size, step, append_data, feed,
}
use market_data_handle.Parser.Step.{step-none_lt}
use market_data_handle.Parser.Run.{scan, scan_stop, scan-append, scan_ends}

-- The parser and the calls that an outcome of the loop stands for.
abbrev pub settle : Outcome → Parser × List Call
settle o = (record { buf = o.rest; stats = o.stats }, o.calls)

-- Between two calls of `feed` the buffer holds no message that could be taken.
abbrev pub IsSettled : Handlers → Parser → Type 0
IsSettled h p = step h p.stats p.buf ≡ none

-- The receive loop: one `feed` for each block of bytes.
unfoldable pub feed_all : Handlers → Parser → List (List ℕ) → Parser × List Call
feed_all h p [] = (p, [])
feed_all h p (c ∷ cs) =
    let (q, calls) = feed h p c in let (r, more) = feed_all h q cs in (r, calls ++ more)

module _ (h : Handlers) where
  -- With room for the block, `feed` runs the loop over the buffered bytes and the block.
  pub feed-scan :
      (p : Parser) (xs : List ℕ)
      → length p.buf + length xs ≤ parse_buf_size
      → feed h p xs ≡ settle (scan h p.stats (p.buf ++ xs))
  unfolding feed scan
  feed-scan p xs fits =
      let e : append_data p.buf xs ≡ p.buf ++ xs = unfold append_data in ground arith in rw e

  -- Whatever the parser holds and is fed, overflow included, `feed` returns with no message in the
  -- buffer that could be taken, and with fewer bytes there than the largest message has.
  pub feed-IsSettled :
      (p : Parser) (xs : List ℕ)
      → IsSettled h (feed h p xs).0 × (length (feed h p xs).0.buf < max_msg_size)
  unfolding feed
  feed-IsSettled p xs =
      let done : IsSettled h (feed h p xs).0 =
        unfold scan in scan_ends h p.stats (append_data p.buf xs) in
      (done, step-none_lt h _ _ done)

  pub init-IsSettled : IsSettled h init
  unfolding step
  init-IsSettled = refl

  -- Fed in blocks of a size that fits, a settled parser does what the loop does on the whole
  -- stream: the same counters, the same bytes left over, the same callbacks in the same order.
  pub feed_all-scan :
      (p : Parser) (chunks : List (List ℕ))
      → IsSettled h p
      → All (λ c. length c + max_msg_size ≤ parse_buf_size + 1) chunks
      → feed_all h p chunks ≡ settle (scan h p.stats (p.buf ++ concat chunks))
  unfolding feed_all
  feed_all-scan p [] quiet fits = rw (append-nil, scan_stop h p.stats p.buf quiet) refl
  feed_all-scan p (c ∷ cs) quiet (fit, fits) =
      let small = step-none_lt h p.stats p.buf quiet in
      let o = scan h p.stats (p.buf ++ c) in
      let later = feed_all-scan (settle o).0 cs (scan_ends h p.stats (p.buf ++ c)) fits in
      rw (feed-scan p c (omega arith), later)
        (ap settle (sym (scan-append h p.stats (p.buf ++ c) (concat cs)))
          ∙ ap (λ t. settle (scan h p.stats t)) (append_assoc p.buf c (concat cs)))

  -- How the network cuts the stream into blocks does not matter: two cuttings of one stream give
  -- the same final parser and the same callbacks.
  pub feed_all-concat :
      (p : Parser) (xs ys : List (List ℕ))
      → IsSettled h p
      → All (λ c. length c + max_msg_size ≤ parse_buf_size + 1) xs
      → All (λ c. length c + max_msg_size ≤ parse_buf_size + 1) ys
      → concat xs ≡ concat ys
      → feed_all h p xs ≡ feed_all h p ys
  feed_all-concat p xs ys quiet fx fy same =
      feed_all-scan p xs quiet fx
      ∙ ap (λ t. settle (scan h p.stats (p.buf ++ t))) same
      ∙ sym (feed_all-scan p ys quiet fy)
