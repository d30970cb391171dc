-- ===== src/Worker/Registering.antt =====
-- The registry: a lookup after a registration.
use managment2_main.Base.{
  String, str_eq, ◌≡◌, refl, true, [], ◌∷◌, arith, eq_iff, Bool-cases, inl, inr, if◌then◌else◌, ◌⊎◌,
}
use managment2_main.Models.{empty_runner_type}
use managment2_main.Session.{ok, raised}
use managment2_main.Worker.{Runner, Registry, put_runner, register_runner, get_runner}

get_runner-put_runner :
    (r : Runner) (registry : Registry) (name : String)
    → get_runner name (put_runner r registry)
      ≡ (if str_eq r.runner_type name then ok r else get_runner name registry)
unfolding get_runner put_runner
get_runner-put_runner r [] name = refl
get_runner-put_runner r (q ∷ registry) name = ground (
  arith,
  get_runner-put_runner r registry name,
  eq_iff q.runner_type r.runner_type,
  eq_iff q.runner_type name,
  eq_iff r.runner_type name,
)

-- After a registration that is accepted, the runner's type leads to the runner, in place of what was
-- registered for it, and every other type to what it led to before. A runner with no type is refused.
pub get_runner-register_runner :
    (r : Runner) (registry : Registry) (name : String)
    → (str_eq r.runner_type "" ≡ true
        × (register_runner r registry ≡ raised (empty_runner_type r.runner_type)))
      ⊎ ((after : Registry) × (register_runner r registry ≡ ok after)
          × (get_runner name after
              ≡ (if str_eq r.runner_type name then ok r else get_runner name registry)))
unfolding register_runner
get_runner-register_runner r registry name = elim (Bool-cases (str_eq r.runner_type "")) [
  | inl nameless ↦ rw nameless (inl (refl, refl))
  | inr named ↦ rw named (inr (put_runner r registry, refl, get_runner-put_runner r registry name))
]
