-- ===== src/Ordering/StateMachine/Lifecycle.antt =====
-- The table of transitions against the production line that it stands for, and what a job's
-- history can look like.
use fast_kit.Kit.{
  String, ◌≡◌, refl, ap, ◌↔◌, ◌⊎◌, inl, inr, true, [], ◌∷◌, arith, eq_iff, text-cases,
}
use fast_kit.Ordering.StateMachine.{
  pending, received_artwork, prepress, batched, hold, canceled, complete, transitions, contains,
  allowed_from, can_transition,
}

-- The stages of production in order.
pub data Next : String → String → Type 0 where
  receive : Next pending received_artwork
  prepare : Next received_artwork prepress
  batch : Next prepress batched
  finish : Next batched complete

-- What may happen to a job: its next stage; a hold or a cancellation of a job that has a next
-- stage; and from the hold the start of the line, or a cancellation.
pub data Step : String → String → Type 0 where
  advance : {s t : String} → Next s t → Step s t
  pause : {s t u : String} → Next s t → u ≡ hold → Step s u
  abort : {s t u : String} → Next s t → u ≡ canceled → Step s u
  resume : Step hold pending
  abort_held : Step hold canceled

-- The statuses with a way out, told apart from all other texts.
data Source : String → Type 0 where
  at_pending : Source pending
  at_received : Source received_artwork
  at_prepress : Source prepress
  at_batched : Source batched
  at_hold : Source hold
  stuck : {s : String} → allowed_from s transitions ≡ [] → Source s

source : (s : String) → Source s
source s = elim (text-cases s pending) [
  | inl (_, p) ↦ rw p at_pending
  | inr a ↦ elim (text-cases s received_artwork) [
    | inl (_, p) ↦ rw p at_received
    | inr b ↦ elim (text-cases s prepress) [
      | inl (_, p) ↦ rw p at_prepress
      | inr c ↦ elim (text-cases s batched) [
        | inl (_, p) ↦ rw p at_batched
        | inr d ↦ elim (text-cases s hold) [
          | inl (_, p) ↦ rw p at_hold
          | inr e ↦ stuck (ground (arith, a, b, c, d, e))
        ]
      ]
    ]
  ]
]

-- A list of three or two that contains a text has it at one of its places.
in_three : (s a b c : String) → contains s (a ∷ b ∷ c ∷ []) ≡ true → (s ≡ a) ⊎ ((s ≡ b) ⊎ (s ≡ c))
in_three s a b c h = ground (arith, eq_iff s a, eq_iff s b, eq_iff s c)

in_two : (s a b : String) → contains s (a ∷ b ∷ []) ≡ true → (s ≡ a) ⊎ (s ≡ b)
in_two s a b h = ground (arith, eq_iff s a, eq_iff s b)

from_stage : (s n t : String) → Next s n → contains t (n ∷ hold ∷ canceled ∷ []) ≡ true → Step s t
from_stage s n t stage h = elim (in_three t n hold canceled h) [
  | inl p ↦ rw p (advance stage)
  | inr (inl p) ↦ pause stage p
  | inr (inr p) ↦ abort stage p
]

to_Step : {s : String} (t : String) → Source s → can_transition s t ≡ true → Step s t
unfolding can_transition
to_Step t at_pending h = from_stage _ _ t receive h
to_Step t at_received h = from_stage _ _ t prepare h
to_Step t at_prepress h = from_stage _ _ t batch h
to_Step t at_batched h = from_stage _ _ t finish h
to_Step t at_hold h = elim (in_two t pending canceled h) [
  | inl p ↦ rw p resume
  | inr p ↦ rw p abort_held
]
to_Step t (stuck {s = s} none_allowed) h = absurd (cc (ap (contains t) none_allowed, h))

from_Step : {s t : String} → Step s t → can_transition s t ≡ true
unfolding can_transition
from_Step (advance receive) = refl
from_Step (advance prepare) = refl
from_Step (advance batch) = refl
from_Step (advance finish) = refl
from_Step (pause receive p) = rw p
from_Step (pause prepare p) = rw p
from_Step (pause batch p) = rw p
from_Step (pause finish p) = rw p
from_Step (abort receive p) = rw p
from_Step (abort prepare p) = rw p
from_Step (abort batch p) = rw p
from_Step (abort finish p) = rw p
from_Step resume = refl
from_Step abort_held = refl

-- The test on the table holds for exactly the steps of the production line, for every two texts.
pub can_transition_iff : (s t : String) → (can_transition s t ≡ true) ↔ Step s t
can_transition_iff s t = (to_Step t (source s), from_Step)
