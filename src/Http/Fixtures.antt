-- ===== src/Http/Fixtures.antt =====
-- Header maps that are functions, for the tests.
use Prim.Native.String.{String}
use text.Mathlib.Text.{◌==◌ as str_eq}
use monolake.Base.{ℕ, List, Option, none, some, if◌then◌else◌, refl}
use monolake.Http.Message.{HeaderMaps, HeaderLaws}

abbrev pub functions : HeaderMaps
functions = record {
  Map = String → Option (List ℕ);
  empty = λ n. none;
  get = λ m n. m n;
  insert = λ m n v k. if str_eq n k then some v else m k;
  remove = λ m n k. if str_eq n k then none else m k;
}

pub functions-laws : HeaderLaws functions
functions-laws = record {
  get-empty = λ n. refl;
  get-insert = λ m n k v. refl;
  get-remove = λ m n k. refl;
}
