-- ===== src/Client/Session/Reading.antt =====
-- What the receive loop reads, block by block.
use mathlib.Core.Option
use market_data_handle.Prelude.{
  map-eq-some, bind-eq-some, ℕ, suc, ◌+◌, ◌-◌, ◌≤◌, ◌<◌, ◌≡◌, refl, sym, ap, ◌∙◌, true, false, none,
  some, List, [], ◌∷◌, ◌++◌, ◌==◌, length, take, drop, arith, ltb, Option-cases, inl, inr,
  take-append_self,
}
use market_data_handle.Parser.{Parser, parse_buf_size, feed}
use market_data_handle.Parser.Stream.{feed-IsSettled}
use market_data_handle.Client.{Client, all_set, receive_block, receive_all, handle_all}
use market_data_handle.Client.Kernel.{Kernel, received, would_block}
use market_data_handle.Client.Socket.{Socket, receive}
use market_data_handle.Client.Session.{
  Feed, returned, fault, recv_buf_size, copied, receive_chunk, feed_buffer, drain,
}

-- Calls of `recv` that return these blocks, one after another, each with a byte or more.
pub data Arrives {W : Type 0} (k : Kernel W) (s : Socket) : W → List (List ℕ) → W → Type 0 where
  quiet : {w : W} → Arrives k s w [] w
  block :
      {w w1 w2 : W} {xs : List ℕ} {xss : List (List ℕ)}
      → k.recv s.fd recv_buf_size w ≡ (received xs, w1)
      → 0 < length xs
      → length xs ≤ recv_buf_size
      → Arrives k s w1 xss w2
      → Arrives k s w (xs ∷ xss) w2

-- One round for each block, and then `fuel` more.
abbrev pub rounds : List (List ℕ) → ℕ → ℕ
rounds [] fuel = fuel
rounds (xs ∷ xss) fuel = suc (rounds xss fuel)

pub rounds_lem : (xss : List (List ℕ)) (fuel : ℕ) → rounds xss fuel ≡ length xss + fuel
rounds_lem [] fuel = omega arith
rounds_lem (xs ∷ xss) fuel = omega (arith, rounds_lem xss fuel)

copied_fits :
    (used n : ℕ)
    → used ≤ parse_buf_size
    → n ≤ recv_buf_size
    → ltb recv_buf_size (copied used n) ≡ false
unfolding copied
copied_fits used n room small = ground arith

abbrev pub feed_at : {W : Type 0} → Socket → W → Parser → Client → List ℕ → Feed W
feed_at s w p c buf = record { sock = s; world = w; parser = p; client = c; recv_buf = buf }

pub receive_block-fits :
    (clock : ℕ → ℕ) (p q : Parser) (c d : Client) (xs : List ℕ)
    → receive_block clock (p, c) xs ≡ some (q, d)
    → length q.buf ≤ parse_buf_size
unfolding receive_block
receive_block-fits clock p q c d xs ran =
    let small = (feed-IsSettled all_set p xs).1 in
    let (e, got, same) =
      map-eq-some (λ (t : Client). ((feed all_set p xs).0, t))
        (handle_all clock (feed all_set p xs).1 c) ran in
    omega (arith, small, ap (λ (r : Parser × Client). length r.0.buf) same)

module _ {W : Type 0} (k : Kernel W) (clock : ℕ → ℕ) where
  receive_chunk_block :
      (σ : Feed W) (w : W) (xs : List ℕ)
      → σ.sock.connected ≡ true
      → k.recv σ.sock.fd recv_buf_size σ.world ≡ (received xs, w)
      → receive_chunk k clock σ
        ≡ (length xs, record σ { world = w; recv_buf = xs ++ drop (length xs) σ.recv_buf })
  unfolding receive_chunk receive
  receive_chunk_block σ w xs on got = ground (arith, on, got)

  feed_buffer_lem :
      (n : ℕ) (σ : Feed W)
      → ltb recv_buf_size (copied (length σ.parser.buf) n) ≡ false
      → feed_buffer k clock n σ
        ≡ Option.map
            (λ (t : Parser × Client). record σ { parser = t.0; client = t.1 })
            (receive_block clock (σ.parser, σ.client) (take n σ.recv_buf))
  unfolding feed_buffer
  feed_buffer_lem n σ fits =
      elim (Option-cases (receive_block clock (σ.parser, σ.client) (take n σ.recv_buf))) [
        | inl e ↦ rw (fits, e, feed_buffer) refl
        | inr (t, e) ↦ rw (fits, e, feed_buffer) refl
      ]

  -- A round that gets a block.
  pub drain_block :
      (σ : Feed W) (w : W) (xs : List ℕ) (fuel : ℕ)
      → σ.sock.connected ≡ true
      → k.recv σ.sock.fd recv_buf_size σ.world ≡ (received xs, w)
      → 0 < length xs
      → length xs ≤ recv_buf_size
      → length σ.parser.buf ≤ parse_buf_size
      → drain k clock (suc fuel) σ ≡ elim (receive_block clock (σ.parser, σ.client) xs) [
        | none ↦ fault
        | some (q, d) ↦ drain k clock fuel (record σ {
          world = w;
          parser = q;
          client = d;
          recv_buf = xs ++ drop (length xs) σ.recv_buf;
        })
      ]
  unfolding drain
  drain_block σ w xs fuel on got some_byte small room =
      let τ : Feed W = record σ { world = w; recv_buf = xs ++ drop (length xs) σ.recv_buf } in
      let front : take (length xs) τ.recv_buf ≡ xs = take-append_self (length xs) xs _ refl in
      let taken = receive_chunk_block σ w xs on got in
      let fits = copied_fits (length σ.parser.buf) (length xs) room small in
      let fed = feed_buffer_lem (length xs) τ fits in
      let unsigned : ltb (length xs) 0 ≡ false = ground arith in
      let more : (length xs == 0) ≡ false = ground arith in
      elim (Option-cases (receive_block clock (σ.parser, σ.client) xs)) [
        | inl lost ↦
            let none_left : feed_buffer k clock (length xs) τ ≡ none =
              fed ∙ rw (front, lost) refl in
            rw (taken, unsigned, more, none_left, lost, drain) refl
        | inr ((q, d), ran) ↦
            let next : feed_buffer k clock (length xs) τ
                ≡ some (record τ { parser = q; client = d }) =
              fed ∙ rw (front, ran) refl in
            rw (taken, unsigned, more, next, ran, drain) refl
      ]

  -- The receive loop does with the blocks that arrive what `receive_all` does with them; then
  -- `fuel` rounds are left.
  drain-Arrives :
      (s : Socket) (v w : W) (p : Parser) (c : Client) (old : List ℕ) (xss : List (List ℕ))
      (q : Parser) (d : Client) (fuel : ℕ)
      → Arrives k s v xss w
      → s.connected ≡ true
      → length p.buf ≤ parse_buf_size
      → receive_all clock (p, c) xss ≡ some (q, d)
      → (buf : List ℕ) × (length q.buf ≤ parse_buf_size)
        × (drain k clock (rounds xss fuel) (feed_at s v p c old)
            ≡ drain k clock fuel (feed_at s w q d buf))
  unfolding receive_all
  drain-Arrives s v w p c old [] q d fuel quiet on room ran =
      let same : (p, c) ≡ (q, d) = cc in
      (
        old,
        omega (arith, room, ap (λ (t : Parser × Client). length t.0.buf) same),
        ap (λ (t : Parser × Client). drain k clock fuel (feed_at s v t.0 t.1 old)) same,
      )
  drain-Arrives s v w p c old (xs ∷ xss) q d fuel (block {w1 = w1} got some_byte small rest) on room
        ran =
      let ((p', c'), first, others) =
        bind-eq-some (receive_block clock (p, c) xs) (λ τ. receive_all clock τ xss) ran in
      let (buf, fits, later) =
        drain-Arrives s w1 w p' c' (xs ++ drop (length xs) old) xss q d fuel rest on
          (receive_block-fits clock p p' c c' xs first) others in
      (
        buf,
        fits,
        drain_block (feed_at s v p c old) w1 xs (rounds xss fuel) on got some_byte small room
            ∙ rw first later,
      )

  -- And it leaves the cache's array where they leave it.
  drain_lost :
      (s : Socket) (v w : W) (p : Parser) (c : Client) (old : List ℕ) (xss : List (List ℕ))
      (fuel : ℕ)
      → Arrives k s v xss w
      → s.connected ≡ true
      → length p.buf ≤ parse_buf_size
      → receive_all clock (p, c) xss ≡ none
      → drain k clock (rounds xss fuel) (feed_at s v p c old) ≡ fault
  unfolding receive_all Option.bind
  drain_lost s v w p c old [] fuel quiet on room ran = absurd cc
  drain_lost s v w p c old (xs ∷ xss) fuel (block {w1 = w1} got some_byte small rest) on room ran =
      let first =
        drain_block (feed_at s v p c old) w1 xs (rounds xss fuel) on got some_byte small room in
      elim (Option-cases (receive_block clock (p, c) xs)) [
        | inl lost ↦ first ∙ rw lost refl
        | inr ((p', c'), read) ↦
            let others : receive_all clock (p', c') xss ≡ none = rw read at ran in
            let later =
              drain_lost s w1 w p' c' (xs ++ drop (length xs) old) xss fuel rest on
                (receive_block-fits clock p p' c c' xs read) others in
            first ∙ rw read later
      ]

  receive_chunk_none :
      (σ : Feed W) (w : W)
      → σ.sock.connected ≡ true
      → k.recv σ.sock.fd recv_buf_size σ.world ≡ (would_block, w)
      → receive_chunk k clock σ ≡ (0, record σ { world = w })
  unfolding receive_chunk receive
  receive_chunk_none σ w on got = ground (arith, on, got)

-- On a connected socket, with a parser whose buffer is no longer than its array: when some blocks
-- arrive and then nothing more is there, and there are more rounds than blocks: if the callbacks for
-- the blocks stay in the cache's array, the receive loop returns, the socket is as before, and the
-- parser, the cache and the counters are what the parser and the callbacks make of the blocks; if they
-- leave the array, so does the loop.
pub drain-receive_all :
    {W : Type 0} (k : Kernel W) (clock : ℕ → ℕ) (σ : Feed W) {v w : W} {xss : List (List ℕ)}
    (fuel : ℕ)
    → Arrives k σ.sock σ.world xss v
    → k.recv σ.sock.fd recv_buf_size v ≡ (would_block, w)
    → σ.sock.connected ≡ true
    → length σ.parser.buf ≤ parse_buf_size
    → length xss < fuel
    → (buf : List ℕ) × (drain k clock fuel σ ≡ elim (receive_all clock (σ.parser, σ.client) xss) [
      | none ↦ fault
      | some (q, d) ↦ returned (feed_at σ.sock w q d buf)
    ])
unfolding drain
drain-receive_all k clock σ {v} {w} {xss} fuel arrives last on room enough =
    let left : ℕ = fuel - length xss - 1 in
    let whole : rounds xss (suc left) ≡ fuel = omega (arith, rounds_lem xss (suc left)) in
    let enter = ap (λ f. drain k clock f σ) (sym whole) in
    elim (Option-cases (receive_all clock (σ.parser, σ.client) xss)) [
      | inl lost ↦ (
        [],
        enter
            ∙ drain_lost k clock σ.sock σ.world v σ.parser σ.client σ.recv_buf xss (suc left)
                arrives on room lost
            ∙ rw lost refl,
      )
      | inr ((q, d), ran) ↦
          let (buf, fits, read) =
            drain-Arrives k clock σ.sock σ.world v σ.parser σ.client σ.recv_buf xss q d (suc left)
              arrives on room ran in
          (
            buf,
            enter
                ∙ read
                ∙ rw (receive_chunk_none k clock (feed_at σ.sock v q d buf) w on last, drain, ran)
                    refl,
          )
    ]
