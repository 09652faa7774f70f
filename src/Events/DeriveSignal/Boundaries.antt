-- ===== src/Events/DeriveSignal/Boundaries.antt =====
-- What the lock deriver promises of its output.
use kronical.Prelude.{◌≡◌, ◌≢◌, refl, Bool, true, false, not, List, [], ◌∷◌, ◌++◌, arith, All}
use kronical.Prelude.Loops.{emit_each, emit_each-append, emit_each_rule}
use kronical.Events.DeriveSignal.{LockDeriver, is_login, derive_kind, derive_event, derive}
use kronical.Events.Model.{SignalKind, HintKind, EventKind, EventEnvelope}

-- The output does not depend on how the envelopes are cut into batches.
pub derive-append :
    (d : LockDeriver) (xs ys : List EventEnvelope)
    → derive d (xs ++ ys)
      ≡ ((derive (derive d xs).0 ys).0, (derive d xs).1 ++ (derive (derive d xs).0 ys).1)
unfolding derive
derive-append d xs ys = emit_each-append derive_event d xs ys

-- The lock as a reader of the envelopes follows it.
abbrev pub after_kind : EventKind → Bool → Bool
after_kind (EventKind.signal SignalKind.lock_start) locked = true
after_kind (EventKind.signal SignalKind.lock_end) locked = false
after_kind _ locked = locked

abbrev pub follow : Bool → List EventEnvelope → Bool
follow locked [] = locked
follow locked (e ∷ es) = follow (after_kind e.kind locked) es

-- What may pass while the session is locked: the boundaries, and the hint that the focus changed.
abbrev pub passes_locked : EventKind → Bool
passes_locked (EventKind.signal SignalKind.lock_start) = true
passes_locked (EventKind.signal SignalKind.lock_end) = true
passes_locked (EventKind.hint HintKind.focus_changed) = true
passes_locked _ = false

-- Nothing else stands where a reader finds the session locked.
abbrev pub IsGuarded : Bool → List EventEnvelope → Type 0
IsGuarded locked [] = Unit
IsGuarded locked (e ∷ es) =
    (locked ≡ true → passes_locked e.kind ≡ true) × IsGuarded (after_kind e.kind locked) es

follow-append :
    (b : Bool) (xs ys : List EventEnvelope) → follow b (xs ++ ys) ≡ follow (follow b xs) ys
follow-append b [] ys = refl
follow-append b (e ∷ xs) ys = follow-append (after_kind e.kind b) xs ys

IsGuarded-append :
    (b : Bool) (xs ys : List EventEnvelope)
    → IsGuarded b xs
    → IsGuarded (follow b xs) ys
    → IsGuarded b (xs ++ ys)
IsGuarded-append b [] ys g h = h
IsGuarded-append b (e ∷ xs) ys g h = (g.0, IsGuarded-append (after_kind e.kind b) xs ys g.1 h)

pub record Follows (d : LockDeriver) (out : List EventEnvelope) (d' : LockDeriver) : Type 0 where
  pub in_step : follow d.locked out ≡ d'.locked
  pub guarded : IsGuarded d.locked out

Follows-then :
    (d d' d'' : LockDeriver) (xs ys : List EventEnvelope)
    → Follows d xs d'
    → Follows d' ys d''
    → Follows d (xs ++ ys) d''
Follows-then d d' d'' xs ys f g = record {
  in_step = rw (follow-append d.locked xs ys) (rw f.in_step g.in_step);
  guarded = IsGuarded-append d.locked xs ys f.guarded (rw f.in_step g.guarded);
}

derive_kind-Follows :
    (k : EventKind) (locked : Bool) (e : EventEnvelope)
    → e.kind ≡ k
    → Follows
        (record { locked = locked })
        (derive_kind k locked e).1
        (record { locked = (derive_kind k locked e).0 })
unfolding derive_kind
derive_kind-Follows k locked e h = ground arith

-- On any input, from any state of the deriver: the output's lock and unlock signals lead a reader
-- exactly to the deriver's own state, and between a lock and its unlock no key, mouse, focus or
-- pulse signal and no hint but `FocusChanged` is passed on.
pub derive-Follows :
    (d : LockDeriver) (input : List EventEnvelope) → Follows d (derive d input).1 (derive d input).0
unfolding derive derive_event
derive-Follows d input =
    emit_each_rule derive_event Follows (λ s. record { in_step = refl; guarded = tt }) Follows-then
      (λ s e. derive_kind-Follows e.kind s.locked e refl) d input

-- What the event adapter produces: no boundary of the lock.
abbrev pub is_boundary : EventKind → Bool
is_boundary (EventKind.signal SignalKind.lock_start) = true
is_boundary (EventKind.signal SignalKind.lock_end) = true
is_boundary _ = false

-- The boundaries of a list alternate: a lock only where it is unlocked, an unlock only where it is
-- locked.
abbrev pub Alternates : Bool → List EventEnvelope → Type 0
Alternates locked [] = Unit
Alternates locked (e ∷ es) =
    (is_boundary e.kind ≡ true → after_kind e.kind locked ≡ not locked)
    × Alternates (after_kind e.kind locked) es

Alternates-append :
    (b : Bool) (xs ys : List EventEnvelope)
    → Alternates b xs
    → Alternates (follow b xs) ys
    → Alternates b (xs ++ ys)
Alternates-append b [] ys g h = h
Alternates-append b (e ∷ xs) ys g h = (g.0, Alternates-append (after_kind e.kind b) xs ys g.1 h)

derive_kind-Alternates :
    (k : EventKind) (locked : Bool) (e : EventEnvelope)
    → e.kind ≡ k
    → is_boundary k ≡ false
    → Alternates locked (derive_kind k locked e).1
unfolding derive_kind
derive_kind-Alternates k locked e h b = ground arith

-- From input without boundaries of its own, the lock and unlock signals of the output alternate,
-- beginning with the one that changes the deriver's state: it never locks twice, nor unlocks
-- twice.
pub derive-Alternates :
    (d : LockDeriver) (input : List EventEnvelope)
    → All (λ e. is_boundary e.kind ≡ false) input
    → Alternates d.locked (derive d input).1
unfolding derive derive_event emit_each
derive-Alternates d [] h = tt
derive-Alternates d (e ∷ input) h =
    let (locked, out) = derive_kind e.kind d.locked e in
    let next : LockDeriver = record { locked = locked } in
    Alternates-append d.locked out (derive next input).1
      (derive_kind-Alternates e.kind d.locked e refl h.0)
      (rw (derive_kind-Follows e.kind d.locked e refl).in_step (derive-Alternates next input h.1))

-- An envelope that leaves an unlocked deriver unlocked.
abbrev pub IsOrdinary : EventEnvelope → Type 0
IsOrdinary e = (is_login e.payload ≡ false) × (e.kind ≢ EventKind.signal SignalKind.lock_start)

derive_kind_ordinary :
    (k : EventKind) (e : EventEnvelope)
    → is_login e.payload ≡ false
    → k ≢ EventKind.signal SignalKind.lock_start
    → derive_kind k false e ≡ (false, e ∷ [])
unfolding derive_kind
derive_kind_ordinary k e h n = ground arith

-- An unlocked deriver that sees neither the login window nor a `LockStart` passes every envelope
-- on unchanged, and stays unlocked.
pub derive_ordinary :
    (d : LockDeriver) (input : List EventEnvelope)
    → d.locked ≡ false
    → All IsOrdinary input
    → derive d input ≡ (d, input)
unfolding derive derive_event emit_each
derive_ordinary d [] l h = refl
derive_ordinary d (e ∷ input) l h =
    ground (arith, derive_kind_ordinary e.kind e h.0.0 h.0.1, derive_ordinary d input l h.1)
