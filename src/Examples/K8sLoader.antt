-- ===== src/Examples/K8sLoader.antt =====
-- A loader that has missed a change.
use customrouter.Base.{true, false, refl, ◌≤◌, ◌⊎◌}
use customrouter.K8sLoader.Reload.{
  State, Step, Work, Works, Phase, Reachable, Settled, CanWork, work_left, Works-Settled,
}

abbrev loaded_state : State
loaded_state = record { changes = 3; events = 0; dirty = false; phase = Phase.waiting; config = 3 }

abbrev changed_state : State
changed_state = record loaded_state { changes = 4; events = 1 }

abbrev signalled_state : State
signalled_state = record changed_state { events = 0; dirty = true }

abbrev reloaded_state : State
reloaded_state = record loaded_state { changes = 4; config = 4 }

changed-Reachable : Reachable changed_state
changed-Reachable = Reachable.next (Reachable.start {s = loaded_state} refl refl) Step.change

reload-Works : Works 5 changed_state reloaded_state
reload-Works = Works.also (Work.deliver 0 refl) (
    Works.also (Work.receive refl refl) (
      Works.also (Work.expire refl)
        (Works.also (Work.build refl) (Works.also (Work.swap 4 refl) Works.done))))

Works-Settled_example :
    (5 ≤ work_left changed_state) × (Settled reloaded_state 4 ⊎ CanWork reloaded_state)
Works-Settled_example = Works-Settled changed_state reloaded_state 5 changed-Reachable reload-Works
