-- ===== src/Channel/Preserve.antt =====
-- The steps of a channel of driver/main.c, against its invariant.
use dmaplane_master.Base.{
  ◌∙◌, ap, subst, ◌||◌, ◌&&◌, not, Bool-cases, ℕ, suc, ◌≡◌, Bool, true, false, refl, sym, List, [],
  ◌∷◌, ◌++◌, some, map, map-append, append_assoc, length-append, inc_parts, dec_parts, arith,
  if◌then◌else◌, Option-cases, inl, inr,
}
use dmaplane_master.Ring
use dmaplane_master.Ring.{Ring, Entry, ring_size}
use dmaplane_master.Ring.Invariant.{push-IsValid, pop-IsValid}
use dmaplane_master.Ring.Refine.{contents, contents-push, contents-pop}
use dmaplane_master.Channel.{
  Channel, Pc, outer, waiting, woken, inner, holding, stored, released, exited, aborted, accept,
  deliver, work, work_take, work_store, process,
}
use dmaplane_master.Channel.System.{
  entries, System, turn, Step, submit, flight, tally, complete, worker, kthread_stop, Reach, begin,
  next,
}
use dmaplane_master.Channel.Invariant.{
  Inv, held, undropped, uncounted, start-Inv, accept_inv, deliver_inv,
}

-- The new entry joins the queue at its end.
fifo-submit :
    (d q h sub acc : List Entry) (e : Entry) {sub' : List Entry}
    → d ++ (q ++ (h ++ map process sub)) ≡ map process acc
    → sub' ≡ sub ++ (e ∷ [])
    → d ++ (q ++ (h ++ map process sub')) ≡ map process (acc ++ (e ∷ []))
fifo-submit d q h sub acc e f g =
    rw (g, map-append process sub (e ∷ []), map-append, ← f) (simp append_assoc)

-- The worker's entry moves on: from the submission ring to its hands, from there to the
-- completion ring, and from that to the caller.
fifo-take :
    (d q sub sub' acc : List Entry) (e : Entry)
    → d ++ (q ++ map process sub) ≡ acc
    → sub ≡ e ∷ sub'
    → d ++ (q ++ (process e ∷ map process sub')) ≡ acc
fifo-take d q sub sub' acc e f g = rw (← f, g)

fifo-store :
    (d q q' rest acc : List Entry) (e : Entry)
    → d ++ (q ++ (e ∷ rest)) ≡ acc
    → q' ≡ q ++ (e ∷ [])
    → d ++ (q' ++ rest) ≡ acc
fifo-store d q q' rest acc e f g = rw (← f, g, append_assoc)

fifo-deliver :
    (d q q' rest acc : List Entry) (e : Entry)
    → d ++ (q ++ rest) ≡ acc
    → q ≡ e ∷ q'
    → (d ++ (e ∷ [])) ++ (q' ++ rest) ≡ acc
fifo-deliver d q q' rest acc e f g = rw (← f, g, append_assoc)

entries-append :
    (xs : List (Entry × Bool)) (e : Entry) (copied : Bool)
    → entries (xs ++ ((e, copied) ∷ [])) ≡ entries xs ++ (e ∷ [])
entries-append [] e copied = refl
entries-append ((x, b) ∷ xs) e copied = ap (λ ys. x ∷ ys) (entries-append xs e copied)

module _ {s : System} (inv : Inv s) where
  submit-Inv :
      (e : Entry) {c : Channel}
      → accept s.chan e ≡ some c
      → Inv (record s { chan = c; accepted = s.accepted ++ (e ∷ []); in_accept = suc s.in_accept })
  submit-Inv e {c} h =
      let (r, p, q) = accept_inv s.chan e h in
      let v = push-IsValid e inv.sub_valid p in
      subst
        (λ x.
          Inv
            (record s { chan = x; accepted = s.accepted ++ (e ∷ []); in_accept = suc s.in_accept }))
        (sym q)
        (record {
          sub_valid = v.0;
          comp_valid = inv.comp_valid;
          fifo =
              fifo-submit (entries s.popped) (contents s.chan.comp_ring) (held s.pc)
                (contents s.chan.sub_ring) s.accepted e inv.fifo (contents-push e inv.sub_valid p);
          flight = ground arith;
          submissions = ground (arith, length-append s.accepted (e ∷ []));
          completions = ground arith;
          submissions_word = inv.submissions_word;
          completions_word = inv.completions_word;
          seen = ground arith;
          bounded = ground arith;
          none_dropped = inv.none_dropped;
        })

  complete-Inv :
      {e : Entry} {c : Channel} (copied : Bool)
      → deliver s.chan ≡ some (e, c)
      → Inv (record s { chan = c; popped = s.popped ++ ((e, copied) ∷ []) })
  complete-Inv {e} {c} copied h =
      let (r, p, q) = deliver_inv s.chan h in
      let v = pop-IsValid inv.comp_valid p in
      subst (λ x. Inv (record s { chan = x; popped = s.popped ++ ((e, copied) ∷ []) })) (sym q)
        (record {
          sub_valid = inv.sub_valid;
          comp_valid = v.0;
          fifo =
              ap (λ d. d ++ (contents r ++ (held s.pc ++ map process (contents s.chan.sub_ring))))
                (entries-append s.popped e copied)
              ∙ fifo-deliver _ _ _ _ _ e inv.fifo (contents-pop inv.comp_valid p);
          flight = inv.flight;
          submissions = inv.submissions;
          completions = ground (arith, length-append s.popped ((e, copied) ∷ []));
          submissions_word = inv.submissions_word;
          completions_word = inv.completions_word;
          seen = inv.seen;
          bounded = inv.bounded;
          none_dropped = inv.none_dropped;
        })

-- A move that changes nothing but where the worker stands, between places that count alike.
pc-Inv :
    {s : System} (p : Pc)
    → Inv s
    → held p ≡ held s.pc
    → undropped p ≡ undropped s.pc
    → uncounted p ≡ uncounted s.pc
    → Inv (record s { pc = p })
pc-Inv {s} p inv h u k = record {
  sub_valid = inv.sub_valid;
  comp_valid = inv.comp_valid;
  fifo = rw h inv.fifo;
  flight = rw u inv.flight;
  submissions = inv.submissions;
  completions = rw k inv.completions;
  submissions_word = inv.submissions_word;
  completions_word = inv.completions_word;
  seen = inv.seen;
  bounded = inv.bounded;
  none_dropped = inv.none_dropped;
}

module _ (s : System) where
  -- The system when the worker stands at `p` with the channel `c`
  abbrev at : Pc × Channel → System
  at w = record s { pc = w.0; chan = w.1 }

  take-Inv : (c : Channel) → Inv (at (inner, c)) → Inv (at (work_take c))
  unfolding work_take
  take-Inv c inv = elim (Option-cases (Ring.pop c.sub_ring)) [
    | inl empty ↦ rw (empty, work_take) (pc-Inv outer inv refl refl refl)
    | inr ((e, r), p) ↦
        let v = pop-IsValid inv.sub_valid p in
        rw (p, work_take)
          (record {
            sub_valid = v.0;
            comp_valid = inv.comp_valid;
            fifo = fifo-take _ _ _ _ _ e inv.fifo (contents-pop inv.sub_valid p);
            flight = omega arith;
            submissions = inv.submissions;
            completions = inv.completions;
            submissions_word = inv.submissions_word;
            completions_word = inv.completions_word;
            seen = omega arith;
            bounded = inv.bounded;
            none_dropped = inv.none_dropped;
          })
  ]

  store-Inv :
      (stop : Bool) (e : Entry) (c : Channel)
      → Inv (at (holding e, c))
      → Inv (at (work_store stop e c))
  unfolding work_store
  store-Inv stop e c inv = elim (Option-cases (Ring.push c.comp_ring e)) [
    | inl full ↦ rw (full, work_store) (wait stop)
    | inr (r, p) ↦
        let v = push-IsValid e inv.comp_valid p in
        rw (p, work_store)
          (record {
            sub_valid = inv.sub_valid;
            comp_valid = v.0;
            fifo = fifo-store _ _ _ _ _ e inv.fifo (contents-push e inv.comp_valid p);
            flight = inv.flight;
            submissions = inv.submissions;
            completions = omega arith;
            submissions_word = inv.submissions_word;
            completions_word = inv.completions_word;
            seen = inv.seen;
            bounded = inv.bounded;
            none_dropped = inv.none_dropped;
          })
  ]
    where
      wait : (b : Bool) → Inv (at (if b then aborted e else holding e, c))
      wait true = pc-Inv (aborted e) inv refl refl refl
      wait false = inv

  work-Inv : (stop : Bool) (p : Pc) (c : Channel) → Inv (at (p, c)) → Inv (at (work stop p c))
  unfolding work
  work-Inv true outer c inv = pc-Inv exited inv refl refl refl
  work-Inv false outer c inv = pc-Inv waiting inv refl refl refl
  work-Inv stop waiting c inv = elim (Bool-cases (not (Ring.is_empty c.sub_ring) || stop)) [
    | inl go ↦ rw go (pc-Inv woken inv refl refl refl)
    | inr sleep ↦ rw sleep inv
  ]
  work-Inv stop woken c inv = elim (Bool-cases (stop && Ring.is_empty c.sub_ring)) [
    | inl leave ↦ rw leave (pc-Inv exited inv refl refl refl)
    | inr stay ↦ rw stay (pc-Inv inner inv refl refl refl)
  ]
  work-Inv stop inner c inv = take-Inv c inv
  work-Inv stop (holding e) c inv = store-Inv stop e c inv
  work-Inv stop stored c inv = record {
    sub_valid = inv.sub_valid;
    comp_valid = inv.comp_valid;
    fifo = inv.fifo;
    flight = omega (arith, dec_parts c.in_flight, inv.flight);
    submissions = inv.submissions;
    completions = inv.completions;
    submissions_word = inv.submissions_word;
    completions_word = inv.completions_word;
    seen = inv.seen;
    bounded = inv.bounded;
    none_dropped = inv.none_dropped;
  }
  work-Inv stop released c inv = record {
    sub_valid = inv.sub_valid;
    comp_valid = inv.comp_valid;
    fifo = inv.fifo;
    flight = inv.flight;
    submissions = inv.submissions;
    completions = omega (arith, inv.completions);
    submissions_word = inv.submissions_word;
    completions_word = omega arith;
    seen = inv.seen;
    bounded = inv.bounded;
    none_dropped = inv.none_dropped;
  }
  work-Inv stop exited c inv = inv
  work-Inv stop (aborted e) c inv = inv

-- Every step keeps the invariant.
pub Step-Inv : {s t : System} → Step s t → Inv s → Inv t
unfolding turn
Step-Inv (submit e h) inv = submit-Inv inv e h
Step-Inv (complete copied h) inv = complete-Inv inv copied h
Step-Inv (flight h) inv = record {
  sub_valid = inv.sub_valid;
  comp_valid = inv.comp_valid;
  fifo = inv.fifo;
  flight = grind (arith, inc_parts);
  submissions = omega arith;
  completions = inv.completions;
  submissions_word = inv.submissions_word;
  completions_word = inv.completions_word;
  seen = inv.seen;
  bounded = inv.bounded;
  none_dropped = inv.none_dropped;
}
Step-Inv (tally h) inv = record {
  sub_valid = inv.sub_valid;
  comp_valid = inv.comp_valid;
  fifo = inv.fifo;
  flight = inv.flight;
  submissions = omega arith;
  completions = inv.completions;
  submissions_word = omega arith;
  completions_word = inv.completions_word;
  seen = inv.seen;
  bounded = inv.bounded;
  none_dropped = inv.none_dropped;
}
Step-Inv {s} worker inv = work-Inv s s.stop s.pc s.chan inv
Step-Inv kthread_stop inv = record {
  sub_valid = inv.sub_valid;
  comp_valid = inv.comp_valid;
  fifo = inv.fifo;
  flight = inv.flight;
  submissions = inv.submissions;
  completions = inv.completions;
  submissions_word = inv.submissions_word;
  completions_word = inv.completions_word;
  seen = inv.seen;
  bounded = inv.bounded;
  none_dropped = inv.none_dropped;
}

pub Reach-Inv : {i : ℕ} {s : System} → Reach i s → Inv s
Reach-Inv {i} begin = start-Inv i
Reach-Inv (next r st) = Step-Inv st (Reach-Inv r)
