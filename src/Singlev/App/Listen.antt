-- ===== src/Singlev/App/Listen.antt =====
-- `application_listen` of singlev/src/app.c. Its loop over the resolved addresses is the text of the
-- loop in `io_thread_listen` of greenev/iothread.c, but the loop that makes the socket objects is
-- commented out.
use striga2_pocs.Base.{
  ◌≡◌, refl, sym, ◌∙◌, ◌⊎◌, inl, inr, true, false, Option, none, some, List, [], ◌∷◌, ◌++◌,
  append-nil, map, length, Bool-cases, if◌then◌else◌,
}
use striga2_pocs.Calls.{
  Call, log, resolve, resolved_free, close, opens, closes, Descriptors, Descriptors-append,
  close_all-Descriptors,
}
use striga2_pocs.Greenev.IoThread.Connecting.{Address, open_sockets}
use striga2_pocs.Greenev.IoThread.Connecting.Listen.{
  all_listen, open_sockets-all_listen, open_sockets-Descriptors, length-open_sockets,
}

-- `resolved` is what `getaddrinfo` answers, `none` for an error. The function returns nothing and
-- changes nothing in the application.
unfoldable pub application_listen : Option (List Address) → List Call
application_listen none = resolve ∷ log ∷ []
application_listen (some addresses) =
    let (fds, done, calls) = open_sockets addresses in
    resolve ∷ (calls ++ resolved_free ∷ (if done then [] else log ∷ map close fds))

-- Where a socket cannot listen on one of the addresses, every descriptor that was opened is closed
-- again. Where one can listen on each of them, one is opened for each address, and not one is closed,
-- although the application keeps none of them.
pub application_listen-leaks :
    (addresses : List Address)
    → let calls = application_listen (some addresses) in
      ((all_listen addresses ≡ false) × (closes calls ≡ opens calls)
        ⊎ (all_listen addresses ≡ true)
          × (length (opens calls) ≡ length addresses)
          × (closes calls ≡ []))
unfolding application_listen opens closes
application_listen-leaks addresses =
    let fds = (open_sockets addresses).0 in
    let d = open_sockets-Descriptors addresses in
    let as_told = sym (open_sockets-all_listen addresses) in
    elim (Bool-cases (open_sockets addresses).1) [
      | inl done ↦
          let all = Descriptors-append d freed in
          inr (
            as_told ∙ done,
            rw done (rw (all.opening ∙ append-nil fds) (length-open_sockets addresses done)),
            rw done all.closing,
          )
      | inr failed ↦
          let all =
            Descriptors-append d (Descriptors-append freed_logged (close_all-Descriptors fds)) in
          inl (as_told ∙ failed, rw failed (all.closing ∙ sym (all.opening ∙ append-nil fds)))
    ]
  where
    freed : Descriptors (resolved_free ∷ []) [] []
    freed = record { opening = refl; closing = refl }

    freed_logged : Descriptors (resolved_free ∷ log ∷ []) [] []
    freed_logged = record { opening = refl; closing = refl }
