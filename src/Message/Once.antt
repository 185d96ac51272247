-- ===== src/Message/Once.antt =====
-- One delivery is settled once, whatever calls are made on its message and however they interleave.
use rabbitkit.Prelude.{
  ℕ, ◌+◌, ◌≤◌, ◌≡◌, Bool-cases, inl, inr, refl, Bool, true, false, List, length, ap, ◌||◌, [], ◌∷◌,
  arith, if◌then◌else◌,
}
use rabbitkit.Message.{
  RabbitMessage, Settlement, ack, nack, reject, Claim, Outcome, Disposition, pending, is_pending,
  is_settled, claim, finish, settle_sync, already, no_function, claims, transport_error, sync_fn,
  async_fn, claimed_by,
}

-- A synchronous call whose transport function returns or raises, the start of an asynchronous one
-- up to its await, and the end of an await, which returns or raises.
pub data Event : Type 0 where
  calls : Settlement → Bool → Event
  begins : Settlement → Event
  ends : Bool → Event

-- The message, the frames that went out or may have, and the synchronous calls that raised.
pub record History : Type 0 where
  pub message : RabbitMessage
  pub frames : List Settlement
  pub failures : ℕ

-- The transport function of an event, which records the frame that it is asked for.
abbrev recording : Bool → Settlement → List Settlement → List Settlement × Bool
recording sent s frames = (if sent then s ∷ frames else frames, sent)

called : History → Outcome × RabbitMessage × List Settlement → History
called h (transport_error, m, frames) = record {
  message = m;
  frames = frames;
  failures = h.failures + 1;
}
called h (_, m, frames) = record { message = m; frames = frames; failures = h.failures }

begun : History → Settlement → Claim → History
begun h s already = h
begun h s no_function = h
begun h s (claims m) = record h { message = m; frames = s ∷ h.frames }

pub happens : History → Event → History
unfolding called begun
happens h (calls s sent) = called h (settle_sync (recording sent) h.message s h.frames)
happens h (begins s) = begun h s (claim h.message s)
happens h (ends sent) = record h { message = finish h.message sent }

pub all_happen : History → List Event → History
all_happen h [] = h
all_happen h (e ∷ es) = all_happen (happens h e) es

-- The frames that agree with a disposition.
abbrev pub Agrees : Disposition → List Settlement → Type 0
Agrees d [] = is_pending d ≡ true
Agrees d (s ∷ []) = d ≡ claimed_by s
Agrees d (s ∷ t ∷ ss) = ⊥

-- Where a message is pending, no frame of it went out.
pending-none :
    (d : Disposition) (frames : List Settlement)
    → is_pending d ≡ true
    → Agrees d frames
    → frames ≡ []
unfolding is_pending claimed_by
pending-none d [] p a = refl
pending-none d (ack ∷ []) p a = ground arith
pending-none d (ack ∷ (_ ∷ _)) p a = elim a [ ]
pending-none d (nack b ∷ []) p a = ground arith
pending-none d (nack b ∷ (_ ∷ _)) p a = elim a [ ]
pending-none d (reject b ∷ []) p a = ground arith
pending-none d (reject b ∷ (_ ∷ _)) p a = elim a [ ]

claimed-Agrees :
    (d : Disposition) (s : Settlement) (frames : List Settlement)
    → is_pending d ≡ true
    → Agrees d frames
    → Agrees (claimed_by s) (s ∷ frames)
claimed-Agrees d s frames p a = rw (pending-none d frames p a) refl

happens-Agrees :
    (h : History) (e : Event)
    → Agrees h.message.disposition h.frames
    → Agrees (happens h e).message.disposition (happens h e).frames
unfolding happens begun called settle_sync claim finish is_settled
happens-Agrees h (calls s false) a = elim (Bool-cases (is_pending h.message.disposition)) [
  | inl p ↦ elim (Bool-cases (sync_fn h.message s)) [ inl f ↦ rw (p, f) a | inr f ↦ rw (p, f) a ]
  | inr p ↦ rw p a
]
happens-Agrees h (calls s true) a = elim (Bool-cases (is_pending h.message.disposition)) [
  | inl p ↦ elim (Bool-cases (sync_fn h.message s)) [
    | inl f ↦ rw (p, f) (claimed-Agrees h.message.disposition s h.frames p a)
    | inr f ↦ rw (p, f) a
  ]
  | inr p ↦ rw p a
]
happens-Agrees h (begins s) a = elim (Bool-cases (is_pending h.message.disposition)) [
  | inl p ↦ elim (Bool-cases (async_fn h.message s || sync_fn h.message s)) [
    | inl f ↦ rw (p, f) (claimed-Agrees h.message.disposition s h.frames p a)
    | inr f ↦ rw (p, f) a
  ]
  | inr p ↦ rw p a
]
happens-Agrees h (ends false) a = a
happens-Agrees h (ends true) a = a

all_happen-Agrees :
    (h : History) (es : List Event)
    → Agrees h.message.disposition h.frames
    → Agrees (all_happen h es).message.disposition (all_happen h es).frames
unfolding all_happen
all_happen-Agrees h [] a = a
all_happen-Agrees h (e ∷ es) a = all_happen-Agrees (happens h e) es (happens-Agrees h e a)

Agrees-le : (d : Disposition) (frames : List Settlement) → Agrees d frames → length frames ≤ 1
Agrees-le d [] a = omega arith
Agrees-le d (s ∷ []) a = omega arith
Agrees-le d (s ∷ (_ ∷ _)) a = elim a [ ]

-- For a pending message of which no frame went out, whatever synchronous and asynchronous calls are
-- made on it, in whatever order their awaits start and end, and whichever of them raise: at most one
-- frame is handed to the transport by an asynchronous call or sent by a synchronous one, there is none
-- exactly while the message is pending, and that frame is the one its disposition names. A synchronous
-- call that raises counts as not sent.
pub settles_once :
    (m : RabbitMessage) (es : List Event)
    → m.disposition ≡ pending
    → let h = all_happen (record { message = m; frames = []; failures = 0 }) es in
      (length h.frames ≤ 1) × Agrees h.message.disposition h.frames
unfolding is_pending
settles_once m es p =
    let start : History = record { message = m; frames = []; failures = 0 } in
    let a = all_happen-Agrees start es (ap is_pending p) in
    (Agrees-le (all_happen start es).message.disposition (all_happen start es).frames a, a)
