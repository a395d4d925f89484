-- ===== src/Services/Echo/Examples.antt =====
-- The echo service on a connection of five bytes with a buffer of two, and a service that panics.
use monolake.Base.{ℕ, List, [], ◌∷◌, ◌++◌, none, some, ok, err, ◌≡◌, refl, arith}
use monolake.Detect.Examples.{bytes, bytes-laws}
use monolake.Services.{call_catch_panic, panic}
use monolake.Services.Echo.{Writers, WriterLaws, call, Echoed, call-Echoed}

abbrev sink : Writers (Unit {0})
sink = record { W = List ℕ; write_all = λ out bs. ok (out ++ bs); written = λ out. out }

-- What a write that succeeds has written.
sink-laws : WriterLaws sink
sink-laws = record { written-write_all = λ out out' bs e. cc }

abbrev five : List ℕ
five = 1 ∷ 2 ∷ 3 ∷ 4 ∷ 5 ∷ []

echo_five : call bytes sink 6 2 five [] ≡ some (ok five)
unfolding call
echo_five = refl

caught : call_catch_panic {R = ℕ} {A = ℕ} {E = ℕ} "boom" (λ n. none) 0 ≡ some (err (panic "boom"))
unfolding call_catch_panic
caught = refl

call-Echoed_example : Echoed bytes sink 2 five [] (call bytes sink 6 2 five [])
call-Echoed_example =
    call-Echoed bytes sink bytes-laws sink-laws 6 2 five [] (omega arith) (omega arith)
