-- ===== src/Worker/Service/Changes.antt =====
-- How a change of the permit or of the map keeps what holds of each transcription.
use free_whisper.Prelude.{
  ℕ, ◌≡◌, ◌≢◌, refl, sym, subst, ap, ◌∙◌, inl, inr, true, false, ◌∷◌, ◌==◌, ==_self, arith, none,
  some, Bool-cases,
}
use free_whisper.Worker.Service.{
  Running, TranscribePhase, reading, running, lookup, remove, is_some, Worker, set,
}
use free_whisper.Worker.Service.Fits.{
  holds, entry, Inv, some_eq, false≢true, lookup-remove-other, lookup-put, put_keeps, plain, update,
}

module _ {A : Type 0} where
  module _ (worker : Worker A) (n : ℕ) (v : Inv worker) where
    open worker use {state, transcriptions}

    -- The permit is taken.
    pub takes :
        holds (transcriptions n) ≡ false
        → state.permit_free ≡ true
        → Inv (record worker {
          state = record state { permit_free = false };
          transcriptions = set n reading transcriptions;
        })
    takes none_held free =
        update worker (record state { permit_free = false }) n reading n v.who
          (record {
            has_permit = λ x. (refl, refl);
            registered = λ r x. cc;
            own_token = λ r x y. cc;
          })
          (λ t other. record {
            has_permit = λ x. ground (arith, free, (v.fits t).has_permit x);
            registered = (v.fits t).registered;
            own_token = (v.fits t).own_token;
          })

    -- The one that has the permit drops it.
    pub drops :
        (q : TranscribePhase A)
        → holds (transcriptions n) ≡ true
        → holds q ≡ false
        → entry q ≡ entry (transcriptions n)
        → Inv (record worker {
          state = record state { permit_free = true };
          transcriptions = set n q transcriptions;
        })
    drops q held dropped kept =
        update worker (record state { permit_free = true }) n q v.owner v.who
          (record {
            has_permit = λ x. ground (arith, x, dropped);
            registered = λ r x. (v.fits n).registered r (sym kept ∙ x);
            own_token = λ r x y. ground (arith, y, dropped);
          })
          (λ t other. record {
            has_permit = λ x.
                absurd (other (((v.fits t).has_permit x).0 ∙ sym ((v.fits n).has_permit held).0));
            registered = (v.fits t).registered;
            own_token = (v.fits t).own_token;
          })

    only_owner : (t : ℕ) → t ≢ n → holds (transcriptions n) ≡ true → holds (transcriptions t) ≢ true
    only_owner t other held x =
        other (((v.fits t).has_permit x).0 ∙ sym ((v.fits n).has_permit held).0)

    -- A registration that is refused replaces the token of the earlier one.
    pub replaces :
        (id next : ℕ) (q : TranscribePhase A)
        → holds (transcriptions n) ≡ true
        → entry q ≡ none
        → Inv (record worker {
          state = record state {
            active = (id, state.next_token) ∷ remove id state.active;
            next_token = next;
          };
          transcriptions = set n q transcriptions;
        })
    replaces id next q held none_new =
        update worker _ n q v.owner v.who
          (record {
            has_permit = λ x. (v.fits n).has_permit held;
            registered = λ r x. ground (arith, x, none_new);
            own_token = λ r x y. ground (arith, x, none_new);
          })
          (λ t other. record {
            has_permit = (v.fits t).has_permit;
            registered = λ r x. (
              ((v.fits t).registered r x).0,
              put_keeps state.active id state.next_token r.request_id ((v.fits t).registered r x).1,
            );
            own_token = λ r x y. absurd (only_owner t other held y);
          })

    -- A new registration.
    pub registers :
        (id next : ℕ)
        → holds (transcriptions n) ≡ true
        → is_some (lookup state.active id) ≡ false
        → Inv (record worker {
          state = record state {
            active = (id, state.next_token) ∷ remove id state.active;
            next_token = next;
          };
          transcriptions =
              set n (running (record { request_id = id; token = state.next_token })) transcriptions;
        })
    registers id next held fresh =
        update worker _ n _ v.owner (set id n v.who)
          (record {
            has_permit = λ x. (v.fits n).has_permit held;
            registered = λ r x.
                subst
                  (λ k.
                    (n ≡ set id n v.who k.request_id)
                    × (is_some
                          (lookup ((id, state.next_token) ∷ remove id state.active) k.request_id)
                        ≡ true))
                  (some_eq x)
                  (rw (==_self id) refl, rw (lookup-put state.active id state.next_token) refl);
            own_token = λ r x y.
                subst
                  (λ k.
                    lookup ((id, state.next_token) ∷ remove id state.active) k.request_id
                    ≡ some k.token)
                  (some_eq x) (lookup-put state.active id state.next_token);
          })
          (λ t other. record {
            has_permit = (v.fits t).has_permit;
            registered = λ r x. elim (Bool-cases (r.request_id == id)) [
              | inl e ↦
                  let same_id : r.request_id ≡ id = ground (arith, e) in
                  absurd (
                    false≢true (
                      sym (ap (λ k. is_some (lookup state.active k)) same_id ∙ fresh)
                      ∙ ((v.fits t).registered r x).1))
              | inr e ↦ (
                rw e ((v.fits t).registered r x).0,
                put_keeps state.active id state.next_token r.request_id
                    ((v.fits t).registered r x).1,
              )
            ];
            own_token = λ r x y. absurd (only_owner t other held y);
          })

    apart :
        (r : Running)
        → entry (transcriptions n) ≡ some r
        → (t : ℕ) → t ≢ n
        → (p : Running) → entry (transcriptions t) ≡ some p
        → lookup (remove r.request_id state.active) p.request_id ≡ lookup state.active p.request_id
    apart r mine t other p theirs = elim (Bool-cases (r.request_id == p.request_id)) [
      | inl e ↦ absurd (
          other (
            ((v.fits t).registered p theirs).0
            ∙ ap v.who (sym (ground (arith, e)))
            ∙ sym ((v.fits n).registered r mine).0))
      | inr e ↦ lookup-remove-other state.active r.request_id p.request_id e
    ]

    -- The registration is dropped.
    pub unregisters :
        (r : Running) (q : TranscribePhase A)
        → entry (transcriptions n) ≡ some r
        → holds (transcriptions n) ≡ false
        → holds q ≡ false
        → entry q ≡ none
        → Inv (record worker {
          state = record state { active = remove r.request_id state.active };
          transcriptions = set n q transcriptions;
        })
    unregisters r q registered unheld free gone =
        update worker _ n q v.owner v.who (plain _ _ _ _ n q free gone) (λ t other. record {
          has_permit = (v.fits t).has_permit;
          registered = λ p x. rw (apart r registered t other p x) ((v.fits t).registered p x);
          own_token = λ p x y. rw (apart r registered t other p x) ((v.fits t).own_token p x y);
        })
