-- ===== src/Streaming.antt =====
-- Reassembly of proposal streams (crates/consensus/src/streaming.rs). `StreamMessage` belongs to the
-- consensus engine: its two tests are parameters with the behaviour that their names document.
-- Sequence numbers and counts do not wrap.
pub mod Heap
pub mod Run
pub mod Reassembly
pub mod Streams
use ultramarine.Common.{
  ℕ, ◌+◌, ◌≡◌, Bool, true, false, ◌&&◌, ◌||◌, Option, none, some, List, [], ◌∷◌, leb, ◌==◌, is_some,
  length, if◌then◌else◌,
}
use ultramarine.Common.Ord.{Ord, pair_ord, bytes_ord}
use ultramarine.Common.Kv.Sorted.{find, insert_sorted, remove_sorted}
use ultramarine.Types.Round.{Round}
use ultramarine.Types.Part.{ProposalInit, ProposalPart, as_init}

pub data StreamContent : Type 0 where
  content : ProposalPart → StreamContent
  end : StreamContent

pub record StreamMessage : Type 0 where
  pub stream_id : List ℕ
  pub sequence : ℕ
  pub body : StreamContent

-- `StreamContent::into_data`, `StreamContent::as_data`.
abbrev pub as_data : StreamContent → Option ProposalPart
as_data (content p) = some p
as_data end = none

abbrev pub ends : StreamContent → Bool
ends (content p) = false
ends end = true

-- `StreamMessage::is_first` and `StreamMessage::is_fin`.
pub record StreamApi : Type 0 where
  pub is_first : StreamMessage → Bool
  pub is_fin : StreamMessage → Bool
  pub is_first_lem : (m : StreamMessage) → is_first m ≡ (m.sequence == 0)
  pub is_fin_lem : (m : StreamMessage) → is_fin m ≡ ends m.body

-- `MinHeap`: the messages in the order in which `pop` takes them, by rising sequence number.
abbrev pub MinHeap : Type 0
MinHeap = List StreamMessage

pub push : StreamMessage → MinHeap → MinHeap
push m [] = m ∷ []
push m (x ∷ h) = if leb m.sequence x.sequence then m ∷ x ∷ h else x ∷ push m h

-- The loop of `drain`: pops every message and keeps the data of those that have some.
pub drain : MinHeap → List ProposalPart
drain [] = []
drain (m ∷ h) = let rest = drain h in elim (as_data m.body) [ none ↦ rest | some p ↦ p ∷ rest ]

pub record StreamState : Type 0 where
  pub buffer : MinHeap
  pub init_info : Option ProposalInit
  pub seen_sequences : List ℕ
  pub total_messages : ℕ
  pub fin_received : Bool

abbrev pub default : StreamState
default = record {
  buffer = [];
  init_info = none;
  seen_sequences = [];
  total_messages = 0;
  fin_received = false;
}

pub record ProposalParts : Type 0 where
  pub height : ℕ
  pub round : Round
  pub proposer : List ℕ
  pub parts : List ProposalPart

pub is_done : StreamState → Bool
is_done s = is_some s.init_info && s.fin_received && length s.buffer == s.total_messages

abbrev pub contains : ℕ → List ℕ → Bool
contains n [] = false
contains n (x ∷ xs) = n == x || contains n xs

-- The end of `StreamState::insert`: `take()` leaves `None` behind, and `drain` an empty heap.
pub finish : StreamState → StreamState × Option ProposalParts
finish s = elim s.init_info [
  | none ↦ (s, none)
  | some i ↦ (
    record s { init_info = none; buffer = [] },
    some (record {
      height = i.height;
      round = i.round;
      proposer = i.proposer;
      parts = drain s.buffer;
    }),
  )
]

-- The messages of a stream from number `n` on: its parts, then the end (the loop of
-- `State::stream_proposal` in crates/consensus/src/state.rs).
unfoldable pub to_messages : List ℕ → ℕ → List ProposalPart → List StreamMessage
to_messages id n [] = record { stream_id = id; sequence = n; body = end } ∷ []
to_messages id n (p ∷ ps) =
    record { stream_id = id; sequence = n; body = content p } ∷ to_messages id (n + 1) ps

-- The streams by peer and stream identifier, in the order of these keys.
abbrev pub PartStreamsMap : Type 0 → Type 0
PartStreamsMap P = List ((P × List ℕ) × StreamState)

abbrev pub or_default : Option StreamState → StreamState
or_default none = default
or_default (some s) = s

-- The test at the end of `StreamState::insert`.
pub complete : StreamState → StreamState × Option ProposalParts
unfolding is_done finish
complete s = if is_done s then finish s else (s, none)

module _ (api : StreamApi) where
  pub read_first : StreamMessage → StreamState → StreamState
  read_first m s =
      if api.is_first m
      then record s { init_info = elim (as_data m.body) [ none ↦ none | some p ↦ as_init p ] }
      else s

  pub read_fin : StreamMessage → StreamState → StreamState
  read_fin m s =
      if api.is_fin m then record s { fin_received = true; total_messages = m.sequence + 1 } else s

  -- The first part of `StreamState::insert`: the fields that a message sets, and the push.
  pub receive : StreamMessage → StreamState → StreamState
  unfolding read_first read_fin as_init
  receive m s = let t = read_fin m (read_first m s) in record t { buffer = push m t.buffer }

  -- `StreamState::insert`.
  pub insert : StreamState → StreamMessage → StreamState × Option ProposalParts
  unfolding receive complete
  insert s m = complete (receive m s)

  -- What `PartStreamsMap::insert` does to the state of the message's own stream.
  pub insert_new : StreamState → StreamMessage → StreamState × Option ProposalParts
  insert_new s m = insert (record s { seen_sequences = m.sequence ∷ s.seen_sequences }) m

  module _ {P : Type 0} ⦃o : Ord P⦄ where
    -- The end of `PartStreamsMap::insert`.
    pub store_part :
        P × List ℕ
        → StreamState × Option ProposalParts
        → PartStreamsMap P
        → PartStreamsMap P × Option ProposalParts
    store_part key (t, result) streams = (
      if is_done t
          then remove_sorted key (insert_sorted key t streams)
          else insert_sorted key t streams,
      result,
    )

    -- `PartStreamsMap::insert`.
    pub insert_part : PartStreamsMap P → P → StreamMessage → PartStreamsMap P × Option ProposalParts
    unfolding store_part
    insert_part streams peer m =
        let key : P × List ℕ = (peer, m.stream_id) in
        let s = or_default (find key streams) in
        if contains m.sequence s.seen_sequences
        then (insert_sorted key s streams, none)
        else store_part key (insert_new s m) streams
