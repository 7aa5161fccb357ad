-- ===== src/Pyglev/Core.antt =====
-- `PyInit_core` of pyglev/pyglev/core/core.c, which makes the Python module.
use striga2_pocs.Base.{
  ℕ, ◌≡◌, Bool, Option, none, some, List, [], ◌∷◌, arith, ◌==◌, if◌then◌else◌, ◌+◌,
}
use striga2_pocs.Calls.{Call, py_api, py_new, py_decref, py_incref, count, is_new, is_decref}

-- What CPython answers: whether the two types are ready, the new module, and whether the three
-- constants are added.
pub record Made : Type 0 where
  pub event_loop_ready : Bool
  pub listen_cmd_ready : Bool
  pub module_ : Option ℕ
  pub version_added : Bool
  pub ev_read_added : Bool
  pub ev_write_added : Bool

-- The module, `none` for an error; the two arguments are the type objects.
pub py_init_core : (event_loop_type listen_cmd_type : ℕ) → Made → Option ℕ × List Call
py_init_core e l a =
    if a.event_loop_ready
    then (if a.listen_cmd_ready
        then (elim a.module_ [
          | none ↦ (none, py_api ∷ py_api ∷ py_api ∷ [])
          | some m ↦
              if a.version_added
              then (if a.ev_read_added
                  then (if a.ev_write_added
                      then (
                        some m,
                        py_api
                            ∷ py_api
                            ∷ py_new m
                            ∷ py_api
                            ∷ py_api
                            ∷ py_api
                            ∷ py_incref e
                            ∷ py_api
                            ∷ py_incref l
                            ∷ py_api
                            ∷ [],
                      )
                      else (
                        none,
                        py_api ∷ py_api ∷ py_new m ∷ py_api ∷ py_api ∷ py_api ∷ py_decref m ∷ [],
                      ))
                  else (none, py_api ∷ py_api ∷ py_new m ∷ py_api ∷ py_api ∷ py_decref m ∷ []))
              else (none, py_api ∷ py_api ∷ py_new m ∷ py_api ∷ py_decref m ∷ [])
        ])
        else (none, py_api ∷ py_api ∷ []))
    else (none, py_api ∷ [])

-- A module that is not returned is dropped, and the one that is returned is not.
init_references :
    (e l : ℕ) (a : Made) (o : ℕ)
    → let (made, calls) = py_init_core e l a in
      count (is_new o) calls
      ≡ count (is_decref o) calls + (elim made [ none ↦ 0 | some m ↦ if o == m then 1 else 0 ])
unfolding py_init_core count is_new is_decref
init_references e l a o = ground arith
