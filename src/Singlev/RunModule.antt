-- ===== src/Singlev/RunModule.antt =====
-- `_pyutils_run_module` of singlev/src/pyutils.c, which runs a Python module as the main one.
use striga2_pocs.Base.{
  ℕ, ◌+◌, ◌≡◌, Bool, true, false, ◌&&◌, Option, none, some, List, [], ◌∷◌, ◌++◌, arith,
}
use striga2_pocs.Calls.{
  Call, count-append, gil_after-append, py_new, py_decref, py_call, py_api, log, count, is_decref,
  is_new, gil_after,
}

-- The objects that the interpreter gives, `none` for an error: the module `runpy`, its function, the
-- module's name, the arguments, and the result of the call.
pub record Answers : Type 0 where
  pub runpy : Option ℕ
  pub runmodule : Option ℕ
  pub name : Option ℕ
  pub runargs : Option ℕ
  pub result : Option ℕ

-- `ran` are the calls that the module makes while it runs.
unfoldable pub pyutils_run_module : Answers → List Call → Bool × List Call
pyutils_run_module a ran = elim a.runpy [
  | none ↦ (false, py_api ∷ log ∷ [])
  | some runpy ↦ elim a.runmodule [
    | none ↦ (false, py_new runpy ∷ py_api ∷ log ∷ py_decref runpy ∷ [])
    | some runmodule ↦ elim a.name [
      | none ↦ (
        false,
        py_new runpy ∷ py_new runmodule ∷ py_api ∷ log ∷ py_decref runpy ∷ py_decref runmodule ∷ [],
      )
      | some name ↦ elim a.runargs [
        | none ↦ (
          false,
          py_new runpy
              ∷ py_new runmodule
              ∷ py_new name
              ∷ py_api
              ∷ log
              ∷ py_decref runpy
              ∷ py_decref runmodule
              ∷ py_decref name
              ∷ [],
        )
        | some runargs ↦
            let made = py_new runpy ∷ py_new runmodule ∷ py_new name ∷ py_new runargs ∷ [] in
            let dropped =
              py_decref runpy ∷ py_decref runmodule ∷ py_decref name ∷ py_decref runargs ∷ [] in
            elim a.result [
              | none ↦ (false, made ++ (py_call runmodule ∷ (ran ++ py_api ∷ dropped)))
              | some result ↦ (
                true,
                made
                    ++ (py_call runmodule
                        ∷ (ran ++ py_new result ∷ (dropped ++ py_decref result ∷ []))),
              )
            ]
      ]
    ]
  ]
]

abbrev pub gives : Option ℕ → Bool
gives none = false
gives (some o) = true

-- A module's run between the calls before and after it.
around :
    (o : ℕ) (ran last : List Call)
    → count (is_new o) ran ≡ count (is_decref o) ran
    → gil_after true ran ≡ some true
    → (count (is_new o) (ran ++ last) + count (is_decref o) last
        ≡ count (is_decref o) (ran ++ last) + count (is_new o) last)
      × (gil_after true (ran ++ last) ≡ gil_after true last)
around o ran last h g = (
  omega (arith, h, count-append (is_new o) ran last, count-append (is_decref o) ran last),
  gil_after-append true true ran last g,
)

-- Every new reference is dropped again, on every way through: if the module itself, while it runs,
-- drops what it takes and leaves the interpreter lock held, then for each object the references
-- taken and dropped come to the same, and the lock is held at the end. The result is true exactly
-- when every object is given, the result of the call included.
pub run_module-drops_all :
    (a : Answers) (ran : List Call) (o : ℕ)
    → count (is_new o) ran ≡ count (is_decref o) ran
    → gil_after true ran ≡ some true
    → let (done, calls) = pyutils_run_module a ran in
      (count (is_new o) calls ≡ count (is_decref o) calls)
      × (gil_after true calls ≡ some true)
      × (done ≡ (
          gives a.runpy && gives a.runmodule && gives a.name && gives a.runargs && gives a.result))
unfolding pyutils_run_module count is_new is_decref gil_after
run_module-drops_all a ran o h g = grind (arith, around o ran)
