-- ===== src/Idempotency/Laws.antt =====
-- A keyed request that succeeded is replayed, and one that failed can be tried again.
use antd_platform.Prelude.{
  ℕ, ◌≡◌, refl, sym, ◌∙◌, ap, subst, none, some, ◌∷◌, Text, Result, ok, err,
}
use antd_platform.Idempotency.{
  inflight, completed, Cache, key_of, failed, begin, complete, replay, drop, finish,
  with_idempotency,
}

module _ {S T : Type 0} (cache : Cache S T) where
  replay-complete :
      (scope k : Text) (status : ℕ) (body : T) (s : S)
      → replay cache scope k (complete cache scope k status body s) ≡ some (status, body)
  unfolding complete replay
  replay-complete scope k status body s =
      rw (replay, cache.get-set (key_of scope k) (completed status body) s)

  replay-none :
      (scope k : Text) (s : S) → cache.get (key_of scope k) s ≡ none → replay cache scope k s ≡ none
  unfolding replay
  replay-none scope k s h = rw (replay, h)

  begin-some :
      (scope k : Text) (s : S)
      → cache.get (key_of scope k) s ≡ none
      → begin cache scope k s ≡ some (cache.set (key_of scope k) inflight s)
  unfolding begin key_of
  begin-some scope k s h = rw (begin, h)

module _ {S T D E : Type 0} (cache : Cache S T) where
  -- Where nothing is kept under a key, the operation runs.
  fresh_run :
      (scope : Text) (c : ℕ) (cs : Text) (fn : D → Result E (D × T)) (d : D) (s : S)
      → cache.get (key_of scope (c ∷ cs)) s ≡ none
      → with_idempotency cache scope (some (c ∷ cs)) fn d s
        ≡ finish cache scope (c ∷ cs) (fn d) (cache.set (key_of scope (c ∷ cs)) inflight s)
  unfolding with_idempotency finish
  fresh_run scope c cs fn d s h =
      rw (
        with_idempotency,
        replay-none cache scope (c ∷ cs) s h,
        begin-some cache scope (c ∷ cs) s h,
      )

  -- A request with a key that succeeded where nothing was kept under the key ran once: every further
  -- request with the key, whatever it asks, gets the same answer and changes nothing.
  pub with_idempotency_once :
      (scope : Text) (c : ℕ) (cs : Text) (fn other : D → Result E (D × T)) (d d' : D) (body : T)
      (s : S)
      → cache.get (key_of scope (c ∷ cs)) s ≡ none
      → fn d ≡ ok (d', body)
      → let first = with_idempotency cache scope (some (c ∷ cs)) fn d s in
        (first.1 ≡ ok (d', body))
        × (with_idempotency cache scope (some (c ∷ cs)) other d' first.0 ≡ (first.0, ok (d', body)))
  unfolding finish with_idempotency key_of
  with_idempotency_once scope c cs fn other d d' body s fresh ran =
      let k = c ∷ cs in
      let reserved = cache.set (key_of scope k) inflight s in
      let run : with_idempotency cache scope (some k) fn d s
          ≡ (complete cache scope k 200 body reserved, ok (d', body)) =
        fresh_run scope c cs fn d s fresh ∙ ap (λ r. finish cache scope k r reserved) ran in
      subst
        (λ p.
          (p.1 ≡ ok (d', body))
          × (with_idempotency cache scope (some k) other d' p.0 ≡ (p.0, ok (d', body))))
        (sym run) (refl, rw (with_idempotency, replay-complete cache scope k 200 body reserved))

  -- A request with a key that failed leaves nothing under the key: the same request can be made
  -- again, and runs.
  pub with_idempotency_retry :
      (scope : Text) (c : ℕ) (cs : Text) (fn : D → Result E (D × T)) (d : D) (e : E) (s : S)
      → cache.get (key_of scope (c ∷ cs)) s ≡ none
      → fn d ≡ err e
      → let first = with_idempotency cache scope (some (c ∷ cs)) fn d s in
        (first.1 ≡ err (failed e)) × (cache.get (key_of scope (c ∷ cs)) first.0 ≡ none)
  unfolding finish drop
  with_idempotency_retry scope c cs fn d e s fresh ran =
      let k = c ∷ cs in
      let reserved = cache.set (key_of scope k) inflight s in
      let run : with_idempotency cache scope (some k) fn d s
          ≡ (drop cache scope k reserved, err (failed e)) =
        fresh_run scope c cs fn d s fresh ∙ ap (λ r. finish cache scope k r reserved) ran in
      subst (λ p. (p.1 ≡ err (failed e)) × (cache.get (key_of scope k) p.0 ≡ none)) (sym run)
        (refl, cache.get-del (key_of scope k) reserved)
