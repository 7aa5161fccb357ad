-- ===== src/Pyglev/Errors.antt =====
-- `_event_loop_error` of pyglev/pyglev/core/evloop.c: an error is handed to the application's
-- callback `on_error`.
use striga2_pocs.Base.{ℕ, ◌≡◌, refl, false, Option, none, some, List, [], ◌∷◌, ◌++◌}
use striga2_pocs.Calls.{
  Call, gil_restore, gil_save, py_api, py_call, py_decref, gil_after, opens, closes,
}

-- `enum pyglev_error_types` of pyglev/pyglev/core/pyglev.h
pub data ErrorType : Type 0 where
  errno eai gener : ErrorType

-- The new reference to the message is dropped where the message is built anew.
abbrev describe : ErrorType → List Call
describe ErrorType.errno = py_api ∷ py_api ∷ []
describe _ = []

-- The call of the callback, and what is made of its result, `none` where that is `NULL`. Where
-- there is no callback the call of `NULL` fails, and the message is written out.
abbrev call_back : Option ℕ → Option ℕ → List Call
call_back none result = py_api ∷ py_api ∷ py_api ∷ py_api ∷ []
call_back (some on_error) none = py_call on_error ∷ py_api ∷ []
call_back (some on_error) (some result) = py_call on_error ∷ py_decref result ∷ []

-- The three arguments are made first, and dropped at the end.
unfoldable pub event_loop_error : Option ℕ → ErrorType → Option ℕ → List Call
event_loop_error on_error error_type result =
    gil_restore
    ∷ py_api
    ∷ py_api
    ∷ py_api
    ∷ (describe error_type
        ++ (call_back on_error result ++ py_api ∷ py_api ∷ py_api ∷ gil_save ∷ []))

-- The interpreter lock is taken for the report only, and no descriptor is touched.
pub event_loop_error-neutral :
    (on_error : Option ℕ) (error_type : ErrorType) (result : Option ℕ) (cs : List Call)
    → (gil_after false (event_loop_error on_error error_type result ++ cs) ≡ gil_after false cs)
      × (opens (event_loop_error on_error error_type result ++ cs) ≡ opens cs)
      × (closes (event_loop_error on_error error_type result ++ cs) ≡ closes cs)
unfolding event_loop_error gil_after opens closes
event_loop_error-neutral none ErrorType.errno result cs = (refl, refl, refl)
event_loop_error-neutral none ErrorType.eai result cs = (refl, refl, refl)
event_loop_error-neutral none ErrorType.gener result cs = (refl, refl, refl)
event_loop_error-neutral (some o) ErrorType.errno none cs = (refl, refl, refl)
event_loop_error-neutral (some o) ErrorType.errno (some r) cs = (refl, refl, refl)
event_loop_error-neutral (some o) ErrorType.eai none cs = (refl, refl, refl)
event_loop_error-neutral (some o) ErrorType.eai (some r) cs = (refl, refl, refl)
event_loop_error-neutral (some o) ErrorType.gener none cs = (refl, refl, refl)
event_loop_error-neutral (some o) ErrorType.gener (some r) cs = (refl, refl, refl)
