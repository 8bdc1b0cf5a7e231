-- ===== src/Controller/Model/Live.antt =====
-- trainfer/controller.py: whatever the queue has run, each layer of the model holds the merged residual.
use trainfer.Prelude.{
  ℕ, zero, suc, ◌<◌, ◌≡◌, refl, sym, inl, inr, String, true, Option, none, some, List, Dict, get,
  subst, str_eq, if_elim, Option-cases, arith,
}
use trainfer.Errors.{Result}
use trainfer.Queue.{Job, ComputeQueue}
use trainfer.Queue.Serial.{serial, jobs_of, Serves, queue-serial}
use trainfer.State.{Tensors, Module}
use trainfer.Snapshot.{SnapshotDir, load}
use trainfer.Snapshot.Sessions.{
  CoveredBy, IsLive, trained-IsLive, reset-IsLive, merged-IsLive, restored-IsLive,
}
use trainfer.Engine.{Torch, Spec, Objective}
use trainfer.Controller.Train.{TrainSpec}
use trainfer.Controller.Handler.{Work}
use trainfer.Controller.Model.{Trained, Answer, train_model, save_model, load_model, handle_model}

-- A task to load a snapshot finds one whose residual covers what is bound.
abbrev pub LoadsCovered : {T P O S L X : Type 0} → Job (Work S) → Trained T P O S L X → Type 0
LoadsCovered {T = T} job w =
    str_eq job.kind "snapshot_load" ≡ true
    → (name : String) (dir : SnapshotDir T) → job.payload.name ≡ some name
    → get name w.snapshots ≡ some dir
    → CoveredBy w.state dir.merged_file

module _ {T P O S L X : Type 0} (ts : Tensors T) (torch : Torch P O L X)
    (registry : Dict (Objective P S L X)) (read : List (Module T) → P)
    (write : P → Module T → T × T) (spec_of : TrainSpec S → Spec S X) (clock : ℕ → ℕ) where
  abbrev pub handler :
      Job (Work S) → Trained T P O S L X → Result (Answer L X) × Trained T P O S L X
  handler = handle_model ts torch registry read write spec_of clock

  train-IsLive :
      (spec : Spec S X) (w : Trained T P O S L X)
      → IsLive ts w.state
      → IsLive ts (train_model ts torch registry read write spec_of clock spec w).1.state
  unfolding train_model
  train-IsLive spec w live = trained-IsLive ts _ w.state live

  save-IsLive :
      (name : Option String) (now : ℕ) (w : Trained T P O S L X)
      → IsLive ts w.state
      → IsLive ts (save_model ts torch registry read write spec_of clock name now w).1.state
  save-IsLive none now w live = live
  save-IsLive (some name) now w live = live

  load-IsLive :
      (name : Option String) (w : Trained T P O S L X)
      → ((n : String) (dir : SnapshotDir T)
          → name ≡ some n
          → get n w.snapshots ≡ some dir
          → CoveredBy w.state dir.merged_file)
      → IsLive ts w.state
      → IsLive ts (load_model ts torch registry read write spec_of clock name w).1.state
  unfolding load
  load-IsLive none w covered live = live
  load-IsLive (some name) w covered live = elim (Option-cases (get name w.snapshots)) [
    | inl missing ↦ rw missing live
    | inr (dir, found) ↦
        rw found (restored-IsLive ts dir w.state (covered name dir refl found) live)
  ]

  handle-IsLive :
      (job : Job (Work S)) (w : Trained T P O S L X)
      → LoadsCovered job w
      → IsLive ts w.state
      → IsLive ts (handler job w).1.state
  unfolding handle_model
  handle-IsLive job w covered live =
      let P = λ (r : Result (Answer L X) × Trained T P O S L X). IsLive ts r.1.state in
      if_elim P (str_eq job.kind "train") _ _ (λ _. train-IsLive (spec_of job.payload.spec) w live)
        (λ _.
          if_elim P (str_eq job.kind "merge") _ _ (λ _. merged-IsLive ts w.state live)
            (λ _.
              if_elim P (str_eq job.kind "snapshot_save") _ _
                (λ _. save-IsLive job.payload.name (clock job.token) w live)
                (λ _.
                  if_elim P (str_eq job.kind "snapshot_load") _ _
                    (λ is_load. load-IsLive job.payload.name w (covered is_load) live)
                    (λ _.
                      if_elim P (str_eq job.kind "eval_greedy_rank") _ _ (λ _. live)
                        (λ _.
                          if_elim P (str_eq job.kind "reset_adapter") _ _
                            (λ _. reset-IsLive ts w.state live) (λ _. live))))))

  serial-IsLive :
      (jobs : ℕ → Job (Work S)) (start : Trained T P O S L X) (n : ℕ)
      → ((k : ℕ) → k < n → LoadsCovered (jobs k) (serial handler jobs start k))
      → IsLive ts start.state
      → IsLive ts (serial handler jobs start n).state
  serial-IsLive jobs start zero covered live = live
  serial-IsLive jobs start (suc n) covered live =
      handle-IsLive (jobs n) (serial handler jobs start n) (covered n (omega arith))
        (serial-IsLive jobs start n (λ k lt. covered k (omega arith)) live)

  -- In every execution of the queue in which no submit overtakes another, with the handler of a
  -- controller whose layers have distinct names and are bound to the merged residual at first: they are so
  -- after whatever it has run, in each state of the model that the handler leaves. A snapshot that a
  -- task loads, in the order of the tokens, has a residual that covers what is bound.
  pub handled-IsLive :
      (max_depth : ℕ) (blank : Job (Work S)) (start : Trained T P O S L X)
      (q : ComputeQueue (Work S) (Answer L X)) (w : Trained T P O S L X)
      → Serves handler max_depth blank start q w
      → IsLive ts start.state
      → ((k : ℕ)
          → k < q.next_token
          → LoadsCovered (jobs_of handler q k) (serial handler (jobs_of handler q) start k))
      → IsLive ts w.state
  handled-IsLive max_depth blank start q w serves live covered =
      let (n, within, at) = (queue-serial handler max_depth blank start q w serves).0 in
      subst (λ (v : Trained T P O S L X). IsLive ts v.state) (sym at)
        (serial-IsLive (jobs_of handler q) start n (λ k lt. covered k (omega arith)) live)
