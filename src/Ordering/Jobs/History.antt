-- ===== src/Ordering/Jobs/History.antt =====
-- What a job looks like after any calls of `transition_to`.
use fast_kit.Kit.{
  String, ◌≡◌, refl, ap, ◌≢◌, ◌⊎◌, inl, inr, true, List, [], ◌∷◌, ◌++◌, Bool-cases, text_ne, Method,
  pure, ◌>>◌, is_ok, bind-ok, bind-err, ok, err,
}
use fast_kit.Ordering.StateMachine.{
  pending, received_artwork, prepress, batched, hold, canceled, complete, InvalidTransition,
  invalid_transition, transitions, allowed_from, can_transition, is_file_editable,
}
use fast_kit.Ordering.StateMachine.Lifecycle.{
  Next, receive, prepare, batch, finish, Step, advance, pause, abort, resume, abort_held,
  can_transition_iff,
}
use fast_kit.Ordering.Jobs.{Job, transition_to}

-- A call goes through exactly if the production line has the step; the job then has the new status
-- and the flag that belongs to it. Otherwise the call raises and the job is as it was.
pub transition_to_cases :
    (new_status : String) (job : Job)
    → Step job.job_status new_status
        × (transition_to new_status job ≡ (
          ok tt,
          record job { job_status = new_status; file_editable = is_file_editable new_status },
        ))
      ⊎ ¬ Step job.job_status new_status
        × (transition_to new_status job ≡ (
          err (
              invalid_transition job.job_status new_status
                (allowed_from job.job_status transitions)),
          job,
        ))
unfolding transition_to
transition_to_cases new_status job = elim (Bool-cases (can_transition job.job_status new_status)) [
  | inl can ↦ inl ((can_transition_iff job.job_status new_status).0 can, rw can)
  | inr cannot ↦
      inr (λ step. cc (cannot, (can_transition_iff job.job_status new_status).1 step), rw cannot)
]

-- Calls one after the other, up to the first that raises.
abbrev pub transitions_to : List String → Method Job InvalidTransition (Unit {0})
transitions_to [] = pure tt
transitions_to (s ∷ ss) = transition_to s >> transitions_to ss

-- The flag of a job follows its status.
abbrev pub IsConsistent : Job → Type 0
IsConsistent job = job.file_editable ≡ is_file_editable job.job_status

transition_to-IsConsistent :
    (s : String) (job : Job) → IsConsistent job → IsConsistent (transition_to s job).1
transition_to-IsConsistent s job h = elim (transition_to_cases s job) [
  | inl (_, went) ↦ rw went
  | inr (_, raised) ↦ rw raised h
]

-- After any calls, also those that raise on the way, the job's files can be edited exactly if its
-- status is one of the editable ones, provided that this held before.
pub transitions_to-IsConsistent :
    (ss : List String) (job : Job) → IsConsistent job → IsConsistent (transitions_to ss job).1
transitions_to-IsConsistent [] job h = h
transitions_to-IsConsistent (s ∷ ss) job h = elim (transition_to_cases s job) [
  | inl (_, went) ↦
      rw (bind-ok (transition_to s) (λ _. transitions_to ss) went)
        (transitions_to-IsConsistent ss _ refl)
  | inr (_, raised) ↦ rw (bind-err (transition_to s) (λ _. transitions_to ss) raised) h
]

-- The production line from a status to its end.
data Line : String → List String → Type 0 where
  done : Line complete []
  stage : {s t : String} {ss : List String} → Next s t → Line t ss → Line s (t ∷ ss)

abbrev pub full_line : List String
full_line = received_artwork ∷ prepress ∷ batched ∷ complete ∷ []

Next-source : {s t : String} → Next s t → (s ≢ hold) × (s ≢ canceled)
Next-source receive = (text_ne _ _ refl, text_ne _ _ refl)
Next-source prepare = (text_ne _ _ refl, text_ne _ _ refl)
Next-source batch = (text_ne _ _ refl, text_ne _ _ refl)
Next-source finish = (text_ne _ _ refl, text_ne _ _ refl)

Line-source : {s : String} {ss : List String} → Line s ss → (s ≢ hold) × (s ≢ canceled)
Line-source done = (text_ne _ _ refl, text_ne _ _ refl)
Line-source (stage n _) = Next-source n

Line-pending : {ss : List String} → Line pending ss → ss ≡ full_line
Line-pending (stage receive (stage prepare (stage batch (stage finish done)))) = refl
Line-pending (stage receive (stage prepare (stage batch (stage finish (stage n _))))) = elim n [ ]

-- Statuses one after the other, each a step from the one before, up to `complete`.
data Walk : String → List String → Type 0 where
  end : {s : String} → s ≡ complete → Walk s []
  go : {s t : String} {ss : List String} → Step s t → Walk t ss → Walk s (t ∷ ss)

abbrev EndsWithLine : List String → Type 0
EndsWithLine ss = (before : List String) × (ss ≡ before ++ full_line)

-- One step before a walk that is the rest of the line, or that ends with the whole line.
extend :
    {s t : String} {ss : List String}
    → Step s t
    → Line t ss ⊎ EndsWithLine ss
    → Line s (t ∷ ss) ⊎ EndsWithLine (t ∷ ss)
extend {t = t} st (inr (before, p)) = inr (t ∷ before, ap (λ l. t ∷ l) p)
extend (advance n) (inl l) = inl (stage n l)
extend (pause n p) (inl l) = absurd ((Line-source l).0 p)
extend (abort n p) (inl l) = absurd ((Line-source l).1 p)
extend resume (inl l) = inr (pending ∷ [], ap (λ l. pending ∷ l) (Line-pending l))
extend abort_held (inl l) = absurd ((Line-source l).1 refl)

Walk-line : {s : String} {ss : List String} → Walk s ss → Line s ss ⊎ EndsWithLine ss
Walk-line (end p) = inl (rw p done)
Walk-line (go st w) = extend st (Walk-line w)

to_Walk :
    (ss : List String) (job : Job)
    → is_ok (transitions_to ss job).0 ≡ true
    → (transitions_to ss job).1.job_status ≡ complete
    → Walk job.job_status ss
to_Walk [] job h e = end e
to_Walk (s ∷ ss) job h e = elim (transition_to_cases s job) [
  | inl (st, went) ↦
      let eq = bind-ok (transition_to s) (λ _. transitions_to ss) went in
      go st (to_Walk ss _ (rw eq at h) (rw eq at e))
  | inr (_, raised) ↦
      absurd
        (cc (ap (λ r. is_ok r.0) (bind-err (transition_to s) (λ _. transitions_to ss) raised), h))
]

-- A job that began as pending and went through calls that all succeeded is complete only if the
-- last four of them took it through the whole line: artwork received, prepress, batch, complete.
pub complete_history :
    (ss : List String) (job : Job)
    → job.job_status ≡ pending
    → is_ok (transitions_to ss job).0 ≡ true
    → (transitions_to ss job).1.job_status ≡ complete
    → (before : List String) × (ss ≡ before ++ full_line)
complete_history ss job p h e = elim (Walk-line (to_Walk ss job h e)) [
  | inl l ↦ ([], Line-pending (rw p at l))
  | inr r ↦ r
]
