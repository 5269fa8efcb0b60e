-- ===== src/Buffer/Tests.antt =====
-- Runs of the buffer, and the theorems at concrete buffers.
use tiny_network_repository.Prelude.{
  ◌≡◌, refl, arith, List, [], ◌∷◌, ◌++◌, some, inl, inr, take, replicate,
}
use tiny_network_repository.Prelude.Outcome.{ok, err, out_of_bounds}
use tiny_network_repository.Buffer.{Buffer, Cell, size, contents, append, consumed}
use tiny_network_repository.Buffer.Valid.{IsValid}
use tiny_network_repository.Buffer.Append.{append_lem, append_overflow}
use tiny_network_repository.Samples.{holding, holding-IsValid}

abbrev two : Buffer
two = holding (7 ∷ 8 ∷ [])

two-IsValid : IsValid two
two-IsValid = holding-IsValid (7 ∷ 8 ∷ []) (omega arith)

abbrev more : List Cell
more = some 9 ∷ some 1 ∷ []

-- A block whose last 2 bytes are stored.
abbrev at_the_end : Buffer
at_the_end = record {
  buf = replicate 512 (some 4);
  begin = 510;
  end = 512;
  capacity = 512;
  exp = 512;
}

at_the_end-IsValid : IsValid at_the_end
at_the_end-IsValid = record {
  begin_le = omega arith;
  end_le = omega arith;
  block = refl;
  small = omega arith;
  exp_eq = refl;
  roomy = inr (omega arith);
}

consumed-two : contents (consumed two 1) ≡ some 8 ∷ []
unfolding contents consumed
consumed-two = refl

append_lem_example :
    (b' : Buffer) × (append two more 2 ≡ ok b')
    × IsValid b'
    × (contents b' ≡ contents two ++ take 2 more)
append_lem_example =
    append_lem two-IsValid more 2 (omega arith) (omega arith) (unfold size in omega arith)
      (inl (omega arith))

append_overflow_example : append at_the_end more 2 ≡ err out_of_bounds
unfolding size
append_overflow_example =
    append_overflow at_the_end-IsValid more 2 (omega arith) (omega arith) (omega arith)
      (λ room. absurd (omega arith))
