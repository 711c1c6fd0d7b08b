-- ===== src/Server/Exchange/Ticking.antt =====
-- A run of ticks of the exchange, and the messages it sends.
use mathlib.Core.Option
use market_data_handle.Prelude.{
  NoDup, member, ℕ, zero, suc, ◌+◌, ◌*◌, ◌≤◌, ◌<◌, ◌^◌, ◌≡◌, refl, sym, ap, ◌∙◌, true, false,
  Option, some, List, [], ◌∷◌, ◌++◌, length, map, concat, All, arith, append_assoc, append-nil,
}
use market_data_handle.Protocol.{Message, message_bytes, header_of}
use market_data_handle.Protocol.Layout.{IsSealed}
use market_data_handle.Parser.{Stats, accept}
use market_data_handle.Parser.Frames.{accept_all}
use market_data_handle.Parser.Gaps.{seq_of, Ascending}
use market_data_handle.Server.Exchange.{
  TickSource, SendResult, accepted, Exchange, is_empty, tick_seq, generate_and_broadcast,
}
use market_data_handle.Server.Exchange.Send.{Effect}
use market_data_handle.Server.Exchange.Ticks.{TickLaws, generate_lem, tick_seq_lem}
use market_data_handle.Server.Exchange.Stream.{broadcast_message_willing}

-- The exchange can tick: there is a client, the generator serves its symbols, and `k` more ticks
-- do not wrap the sequence number.
pub record Able {G : Type 0} (src : TickSource G) (Ready : G → Type 0) (k : ℕ) (x : Exchange G)
    : Type 0 where
  pub laws : TickLaws src x.symbol_count Ready
  pub ready : Ready x.gen
  pub some_symbols : 0 < x.symbol_count
  pub few_symbols : x.symbol_count ≤ 2 ^ 16
  pub no_twins : NoDup x.clients
  pub some_clients : is_empty x.clients ≡ false
  pub room : x.seq_no + 2 * k < 2 ^ 32

abbrev pub first_seq : List Message → ℕ
first_seq [] = 0
first_seq (m ∷ ms) = seq_of m

module _ {G N : Type 0} (src : TickSource G) (send : ℕ → List ℕ → N → SendResult × N) where
  unfoldable pub generate_ticks : ℕ → Exchange G × N → Option (Exchange G × N)
  generate_ticks zero s = some s
  generate_ticks (suc k) s = Option.bind (generate_and_broadcast src send s) (generate_ticks k)

module _ {G N : Type 0} (src : TickSource G) (send : ℕ → List ℕ → N → SendResult × N)
    (log : N → ℕ → List ℕ) (Ready : G → Type 0)
    (network : (fd b : ℕ) (bs : List ℕ) (net : N)
      → let (r, after) = send fd (b ∷ bs) net in Effect fd (b ∷ bs) (log net) (log after) r)
    (willing : (fd b : ℕ) (bs : List ℕ) (net : N)
      → (count : ℕ) × ((send fd (b ∷ bs) net).0 ≡ accepted count)) where
  pub record Ticked (k : ℕ) (x : Exchange G) (net : N) : Type 0 where
    pub final : Exchange G
    pub after : N
    pub messages : List Message
    pub ran : generate_ticks src send k (x, net) ≡ some (final, after)
    pub count : length messages ≡ k
    pub sealed : All IsSealed messages
    pub listed : All (λ m. (header_of m).symbol_id < x.symbol_count) messages
    pub ascending : (last : ℕ) → last < x.seq_no → Ascending last messages
    pub first : (j : ℕ) → k ≡ suc j → first_seq messages ≡ tick_seq x
    pub last :
        (s : Stats)
        → (k ≡ 0 → s.last_seq + 1 ≡ x.seq_no)
        → (accept_all s messages).last_seq + 1 ≡ final.seq_no
    pub skipless : x.fault_injection ≡ false → final.seq_no ≡ x.seq_no + k
    pub logged :
        (fd : ℕ)
        → member fd x.clients ≡ true
        → log after fd ≡ log net fd ++ concat (map message_bytes messages)

  pub generate_ticks-Ticked :
      (k : ℕ) (x : Exchange G) (net : N) → Able src Ready k x → Ticked k x net
  unfolding generate_ticks generate_and_broadcast Option.bind accept_all accept
  generate_ticks-Ticked zero x net able = record {
    final = x;
    after = net;
    messages = [];
    ran = refl;
    count = refl;
    sealed = tt;
    listed = tt;
    ascending = λ last lt. tt;
    first = λ j e. absurd (omega arith);
    last = λ s here. here refl;
    skipless = λ e. omega arith;
    logged = λ fd here. sym (append-nil _);
  }
  generate_ticks-Ticked (suc k) x net able =
      let (m, g, made, law) =
        generate_lem src send Ready x able.laws able.some_symbols able.few_symbols
          (omega (arith, able.room)) able.ready in
      let x1 : Exchange G = record x { gen = g; seq_no = tick_seq x + 1 } in
      let (net1, sent, got) =
        broadcast_message_willing src send log network willing (message_bytes m) x1 net
          able.no_twins in
      let number = tick_seq_lem x (omega (arith, able.room)) in
      let able1 : Able src Ready k x1 = record {
        laws = able.laws;
        ready = law.ready;
        some_symbols = able.some_symbols;
        few_symbols = able.few_symbols;
        no_twins = able.no_twins;
        some_clients = able.some_clients;
        room = ground (arith, number, able.room);
      } in
      let rest = generate_ticks-Ticked k x1 net1 able1 in
      record {
        final = rest.final;
        after = rest.after;
        messages = m ∷ rest.messages;
        ran = rw (able.some_clients, made, sent) rest.ran;
        count = ap suc rest.count;
        sealed = (law.sealed, rest.sealed);
        listed = (grind (arith, law.symbol, able.some_symbols), rest.listed);
        ascending = λ last lt. (
          ground (arith, number, law.numbered),
          ground (arith, number, law.numbered, able.room),
          rest.ascending (seq_of m) (omega (arith, law.numbered)),
        );
        first = λ j e. law.numbered;
        last = λ s here. rest.last (accept s (seq_of m)) (λ e. omega (arith, law.numbered));
        skipless = λ e. ground (arith, number, rest.skipless e);
        logged = λ fd here.
            rest.logged fd here
            ∙ ap (λ t. t ++ concat (map message_bytes rest.messages)) (got fd here)
            ∙ append_assoc (log net fd) (message_bytes m) _;
      }
