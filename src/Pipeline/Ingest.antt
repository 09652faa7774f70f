-- ===== src/Pipeline/Ingest.antt =====
-- The ingest stage (src/daemon/pipeline/ingest.rs): hook events get a time and an id, and go on in
-- batches, with ticks between them. What it reads of the clock comes with what it receives. The
-- sends are those of a stage whose receiver is alive.
pub mod Ids
pub mod Flow
pub mod Waits
use Prim.Native.Nat.{bit_or}
use kronical.Prelude.{
  ℕ, ◌+◌, ◌-◌, ◌*◌, ◌%◌, Bool, true, false, Option, none, some, List, [], ◌∷◌, ◌++◌, ltb, leb, ◌==◌,
  is_empty, if◌then◌else◌,
}
use kronical.Prelude.Int.{ℤ, pos}
use kronical.Events.{
  MouseButton, MouseEventKind, WheelAxis, WheelScrollType, WindowFocusInfo, RawEvent,
}
use kronical.Pipeline.{DeriveCommand, RawBatch, FlushReason}
use kronical.Time.{DateTime, millisecond, timestamp_millis}

-- What the hooks send (src/daemon/coordinator.rs).
pub data KronicalEvent : Type 0 where
  keyboard_input : KronicalEvent
  -- x, y, button, clicks, kind
  mouse_input : ℤ → ℤ → Option MouseButton → ℕ → MouseEventKind → KronicalEvent
  -- clicks, x, y, scroll type, amount, rotation, axis
  mouse_wheel : ℕ → ℤ → ℤ → WheelScrollType → ℕ → ℤ → Option WheelAxis → KronicalEvent
  window_focus_change : WindowFocusInfo → KronicalEvent
  shutdown : KronicalEvent

-- `None` is the error.
unfoldable pub convert_kronid_to_raw : KronicalEvent → DateTime → ℕ → Option RawEvent
convert_kronid_to_raw KronicalEvent.keyboard_input now event_id = some (
    RawEvent.keyboard_input now event_id
      (record { key_code = none; key_char = none; modifiers = [] }))
convert_kronid_to_raw (KronicalEvent.mouse_input x y button clicks kind) now event_id = some (
    RawEvent.mouse_input now event_id (record {
      position = record { x = x; y = y };
      button = button;
      click_count = if ltb 0 clicks then some clicks else none;
      event_type = some kind;
      wheel_amount = none;
      wheel_rotation = none;
      wheel_axis = none;
      wheel_scroll_type = none;
    }))
convert_kronid_to_raw (KronicalEvent.mouse_wheel clicks x y scroll_type amount rotation axis) now
      event_id =
    some (
      RawEvent.mouse_input now event_id (record {
        position = record { x = x; y = y };
        button = none;
        click_count = some clicks;
        event_type = none;
        wheel_amount = some (pos amount);
        wheel_rotation = some rotation;
        wheel_axis = axis;
        wheel_scroll_type = some scroll_type;
      }))
convert_kronid_to_raw (KronicalEvent.window_focus_change focus_info) now event_id =
    some (RawEvent.window_focus_change now event_id focus_info)
convert_kronid_to_raw KronicalEvent.shutdown now event_id = none

abbrev pub event_id_seq_mask : ℕ
event_id_seq_mask = 4095

pub record IdState : Type 0 where
  pub last_event_ms : ℕ
  pub event_seq : ℕ

-- `(now_ms << EVENT_ID_SEQ_BITS) | event_seq`, on `u64`.
unfoldable pub make_id : ℕ → ℕ → ℕ
make_id now_ms event_seq = bit_or (now_ms * 4096 % 0x1_0000_0000_0000_0000) event_seq

abbrev pub fresh_id : DateTime → IdState × (DateTime × ℕ)
fresh_id now = (
  record { last_event_ms = timestamp_millis now; event_seq = 0 },
  (now, make_id (timestamp_millis now) 0),
)

-- The loop that waits for the next millisecond, over the readings that it makes.
unfoldable pub wait_next : ℕ → List DateTime → Option (IdState × (DateTime × ℕ))
wait_next last_event_ms [] = none
wait_next last_event_ms (now ∷ readings) =
    let rest = wait_next last_event_ms readings in
    if timestamp_millis now == last_event_ms then rest else some (fresh_id now)

-- `none` where the readings run out: the call still waits.
unfoldable pub next_event_id : IdState → List DateTime → Option (IdState × (DateTime × ℕ))
unfolding wait_next
next_event_id s [] = none
next_event_id s (now ∷ readings) =
    let now_ms = timestamp_millis now in
    if now_ms == s.last_event_ms
    then if leb event_id_seq_mask s.event_seq
      then wait_next s.last_event_ms readings
      else some (record s { event_seq = s.event_seq + 1 }, (now, make_id now_ms (s.event_seq + 1)))
    else some (fresh_id now)

pub record Ingest : Type 0 where
  pub pending : List RawEvent
  pub ids : IdState
  pub last_idle_tick : ℕ

-- One turn of `select!`. An event comes with the readings of `next_event_id`, then `Utc::now` and
-- `Instant::now`; the ticker with `Utc::now`, and `Instant::now` before and after.
pub data Arrival : Type 0 where
  received : KronicalEvent → List DateTime → DateTime → ℕ → Arrival
  disconnected : Arrival
  ticker : DateTime → ℕ → ℕ → Arrival

-- The state after a turn, its sends, and whether the loop ends.
abbrev pub Turn : Type 0
Turn = (Ingest × List DeriveCommand) × Bool

abbrev pub idle_tick_interval : ℕ
idle_tick_interval = 500 * millisecond

abbrev queued : Ingest → IdState → ℕ → DateTime → Option RawEvent → Turn
queued s ids instant utc none = ((record s { ids = ids }, []), false)
queued s ids instant utc (some raw) = (
  (
    record { pending = s.pending ++ (raw ∷ []); ids = ids; last_idle_tick = instant },
    DeriveCommand.tick utc ∷ [],
  ),
  false,
)

abbrev take_event :
    Ingest → KronicalEvent → DateTime → ℕ → Option (IdState × (DateTime × ℕ)) → Option Turn
take_event s event utc instant none = none
take_event s event utc instant (some (ids, (now, id))) =
    some (queued s ids instant utc (convert_kronid_to_raw event now id))

abbrev pub batch_of : List RawEvent → FlushReason → DeriveCommand
batch_of events reason = DeriveCommand.batch (record { events = events; reason = reason })

-- `none` while the turn waits for the clock.
unfoldable pub on_arrival : Ingest → Arrival → Option Turn
unfolding convert_kronid_to_raw next_event_id
on_arrival s (Arrival.received KronicalEvent.shutdown readings utc instant) = some (
  (
    record s { pending = [] },
    (if is_empty s.pending then [] else batch_of s.pending FlushReason.shutdown ∷ [])
        ++ (DeriveCommand.shutdown ∷ []),
  ),
  true,
)
on_arrival s (Arrival.received event readings utc instant) =
    take_event s event utc instant (next_event_id s.ids readings)
on_arrival s Arrival.disconnected = some ((s, []), true)
on_arrival s (Arrival.ticker utc before after) =
    if is_empty s.pending
    then if leb idle_tick_interval (before - s.last_idle_tick)
      then some ((record s { last_idle_tick = after }, DeriveCommand.tick utc ∷ []), false)
      else some ((s, []), false)
    else some (
      (
        record s { pending = []; last_idle_tick = after },
        batch_of s.pending FlushReason.timeout ∷ DeriveCommand.tick utc ∷ [],
      ),
      false,
    )

abbrev continued :
    Option (Ingest × List DeriveCommand) → List DeriveCommand → Option (Ingest × List DeriveCommand)
continued none sends = none
continued (some (last, rest)) sends = some (last, sends ++ rest)

-- After a turn, `go` is the rest of the loop.
abbrev pub next_turn :
    (Ingest → Option (Ingest × List DeriveCommand))
    → Option Turn
    → Option (Ingest × List DeriveCommand)
next_turn go none = none
next_turn go (some ((s', sends), over)) = if over then some (s', sends) else continued (go s') sends

-- The loop over its turns.
unfoldable pub run_ingest : Ingest → List Arrival → Option (Ingest × List DeriveCommand)
unfolding on_arrival
run_ingest s [] = some (s, [])
run_ingest s (a ∷ arrivals) = next_turn (λ s'. run_ingest s' arrivals) (on_arrival s a)
