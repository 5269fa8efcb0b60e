-- ===== src/Buffer/Move.antt =====
-- Moving a buffer into a new one, and into one that is there.
use tiny_network_repository.Prelude.{◌≡◌, refl, arith, []}
use tiny_network_repository.Buffer.{Buffer, contents, size, move_from, move_assign}
use tiny_network_repository.Buffer.Valid.{IsValid}

-- A moved buffer has the bytes of its source, which is left valid and empty.
pub move_from_lem :
    {b : Buffer}
    → IsValid b
    → let (new, old) = move_from b in
      IsValid new × (contents new ≡ contents b) × IsValid old × (contents old ≡ [])
unfolding move_from contents size
move_from_lem v = (ground (arith, v.roomy), refl, ground (arith, v.exp_eq), refl)

-- After an assignment by move between valid buffers, the target has the bytes of the source, and
-- the source is empty; both are valid.
pub move_assign_lem :
    {a b : Buffer}
    → IsValid a
    → IsValid b
    → let (new, old) = move_assign a b in
      IsValid new × (contents new ≡ contents b) × IsValid old × (contents old ≡ [])
unfolding move_assign contents size
move_assign_lem v w = (ground (arith, v.exp_eq, w.roomy), refl, ground (arith, w.exp_eq), refl)
