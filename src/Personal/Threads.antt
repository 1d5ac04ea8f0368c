-- ===== src/Personal/Threads.antt =====
-- services/personal_comparator/main.cpp: the three threads on the two ring buffers, as a relation of
-- steps in any order, and what the records whose statements are run have to do with the events that came in.
-- The steps are those the threads take while `running` is set: the shutdown, in which a thread leaves
-- its loops and drops what it holds, is left out.
use weather_rtos.Base.{
  ℕ, ◌-◌, ◌≡◌, refl, sym, ap, ◌∙◌, Bool, true, false, Option, none, some, List, [], ◌∷◌, ◌++◌,
  append_assoc, append-nil, map, length, leb, Bool-cases, inl, inr,
}
use mathlib.Core.List.{map-append}
use mathlib.Core.Path.{subst}
use weather_rtos.RtSafe.BoundedQueue
use weather_rtos.RtSafe.RingBuffer.{Ring, push, pop}
use weather_rtos.RtSafe.RingBuffer.Cells.{Represents}
use weather_rtos.RtSafe.RingBuffer.Valid.{IsValid}
use weather_rtos.RtSafe.RingBuffer.Refine.{push-Refines, pop-Refines}

value_or {ℓ} : {B : Type ℓ} → B → Option B → B
value_or b none = b
value_or b (some c) = c

same_result :
    {A B : Type 0} (out : Option (A × B)) (a a' : A) (b b' : B)
    → out ≡ some (a, b)
    → out ≡ some (a', b')
    → (a ≡ a') × (b ≡ b')
unfolding value_or
same_result out a a' b b' e f =
    let g = ap (value_or (a, b)) (sym e ∙ f) in (ap (λ p. p.0) g, ap (λ p. p.1) g)

queue_push :
    {A : Type 0} (limit : ℕ) (q : List A) (x : A)
    → ((BoundedQueue.push limit q x).0 ≡ true → (BoundedQueue.push limit q x).1 ≡ q ++ x ∷ [])
      × ((BoundedQueue.push limit q x).0 ≡ false → (BoundedQueue.push limit q x).1 ≡ q)
unfolding BoundedQueue.push
queue_push limit q x = elim (Bool-cases (leb limit (length q))) [
  | inl full ↦ rw full (λ h. cc, λ h. refl)
  | inr room ↦ rw room (λ h. refl, λ h. cc)
]

queue_pop :
    {A : Type 0} (q : List A) (x : A)
    → (BoundedQueue.pop q).0 ≡ some x
    → q ≡ x ∷ (BoundedQueue.pop q).1
unfolding BoundedQueue.pop value_or
queue_pop [] x e = cc
queue_pop (y ∷ q) x e = ap (λ o. value_or y o ∷ q) e

queue_pop-none :
    {A : Type 0} (q : List A) → (BoundedQueue.pop q).0 ≡ none → (BoundedQueue.pop q).1 ≡ q
unfolding BoundedQueue.pop
queue_pop-none [] e = refl
queue_pop-none (y ∷ q) e = cc

-- A ring that holds a queue.
abbrev pub Holds : {A : Type 0} → Ring A → List A → Type 0
Holds r q = IsValid r × Represents r q

module _ {A : Type 0} (r r' : Ring A) (q : List A) (h : Holds r q) where
  push_taken : (x : A) → push r x ≡ some (true, r') → Holds r' (q ++ x ∷ [])
  push_taken x e =
      let (r'', f, v, rep, c) = push-Refines r q x h.0 h.1 in
      let (b, same) = same_result (push r x) _ true r'' r' f e in
      rw (sym same, sym ((queue_push (r.capacity - 1) q x).0 b)) (v, rep)

  push_refused : (x : A) → push r x ≡ some (false, r') → Holds r' q
  push_refused x e =
      let (r'', f, v, rep, c) = push-Refines r q x h.0 h.1 in
      let (b, same) = same_result (push r x) _ false r'' r' f e in
      subst (Holds r') ((queue_push (r.capacity - 1) q x).1 b) (rw (sym same) (v, rep))

  pop_taken : (x : A) → pop r ≡ some (some x, r') → (rest : List A) × (q ≡ x ∷ rest) × Holds r' rest
  pop_taken x e =
      let (r'', f, v, rep, c) = pop-Refines r q h.0 h.1 in
      let (o, same) = same_result (pop r) _ (some x) r'' r' f e in
      ((BoundedQueue.pop q).1, queue_pop q x o, rw (sym same) (v, rep))

  pop_nothing : pop r ≡ some (none, r') → Holds r' q
  pop_nothing e =
      let (r'', f, v, rep, c) = pop-Refines r q h.0 h.1 in
      let (o, same) = same_result (pop r) _ none r'' r' f e in
      subst (Holds r') (queue_pop-none q o) (rw (sym same) (v, rep))

-- The rings, the record that the comparator holds while it offers it, what has been accepted from the
-- connections, and the records whose statements have been run, each with whether it became a row, in
-- order.
pub record Threads (E R : Type 0) : Type 0 where
  pub ingest : Ring E
  pub sync : Ring R
  pub held : Option R
  pub accepted : List E
  pub executed : List (R × Bool)

-- One step of a thread. A step on a ring is one call of it: RtSafe/RingBuffer/Spsc takes the calls of
-- one producer and one consumer apart into their accesses.
pub data Step {E R : Type 0} (compare : E → Option R) (s : Threads E R) : Threads E R → Type 0 where
  -- The server pushes an event, or finds the ring full and drops it.
  accept :
      (e : E) (r : Ring E)
      → push s.ingest e ≡ some (true, r)
      → Step compare s (record s { ingest = r; accepted = s.accepted ++ e ∷ [] })
  overflow :
      (e : E) (r : Ring E)
      → push s.ingest e ≡ some (false, r)
      → Step compare s (record s { ingest = r })
  -- The comparator takes an event, if it holds no record, and makes the record; or finds none.
  take_event :
      (e : E) (made : R) (r : Ring E)
      → s.held ≡ none
      → pop s.ingest ≡ some (some e, r)
      → compare e ≡ some made
      → Step compare s (record s { ingest = r; held = some made })
  no_event : (r : Ring E) → pop s.ingest ≡ some (none, r) → Step compare s (record s { ingest = r })
  -- It offers the record until the ring has room.
  offer :
      (made : R) (r : Ring R)
      → s.held ≡ some made
      → push s.sync made ≡ some (true, r)
      → Step compare s (record s { sync = r; held = none })
  no_room :
      (made : R) (r : Ring R)
      → s.held ≡ some made
      → push s.sync made ≡ some (false, r)
      → Step compare s (record s { sync = r })
  -- The writer takes a record and runs its statement once, or finds none. The record becomes no row
  -- where the statement fails or its key is there already; the writer goes on all the same.
  execute :
      (made : R) (stored : Bool) (r : Ring R)
      → pop s.sync ≡ some (some made, r)
      → Step compare s (record s { sync = r; executed = s.executed ++ (made, stored) ∷ [] })
  no_record : (r : Ring R) → pop s.sync ≡ some (none, r) → Step compare s (record s { sync = r })

pub data Reach {E R : Type 0} (compare : E → Option R) (s : Threads E R)
    : Threads E R → Type 0 where
  here : Reach compare s s
  next : {t u : Threads E R} → Reach compare s t → Step compare t u → Reach compare s u

module _ {E R : Type 0} (compare : E → Option R) where
  -- The records are those of the events, one for each, in order.
  abbrev pub Compared : List E → List R → Type 0
  Compared [] [] = Unit
  Compared [] (r ∷ rs) = ⊥
  Compared (e ∷ es) [] = ⊥
  Compared (e ∷ es) (r ∷ rs) = (compare e ≡ some r) × Compared es rs

  Compared-append :
      (es : List E) (rs : List R) (e : E) (r : R)
      → Compared es rs
      → compare e ≡ some r
      → Compared (es ++ e ∷ []) (rs ++ r ∷ [])
  Compared-append [] [] e r h k = (k, tt)
  Compared-append [] (x ∷ rs) e r h k = absurd h
  Compared-append (x ∷ es) [] e r h k = absurd h
  Compared-append (x ∷ es) (y ∷ rs) e r h k = (h.0, Compared-append es rs e r h.1 k)

  abbrev pub of_held : Option R → List R
  of_held none = []
  of_held (some r) = r ∷ []

  -- The records whose statements have been run.
  abbrev pub ran : Threads E R → List R
  ran s = map (λ (e : R × Bool). e.0) s.executed

  -- Both rings hold queues, and what has been accepted is what has been taken, whose records have had
  -- their statements run, are on their way or held, and what waits.
  pub record Accounted (s : Threads E R) : Type 0 where
    pub waiting : List E
    pub taken : List E
    pub on_the_way : List R
    pub ingest_holds : Holds s.ingest waiting
    pub sync_holds : Holds s.sync on_the_way
    pub accepted_parts : s.accepted ≡ taken ++ waiting
    pub records : Compared taken (ran s ++ (on_the_way ++ of_held s.held))

  Step-Accounted : {s t : Threads E R} → Step compare s t → Accounted s → Accounted t
  Step-Accounted {s = s} (accept e r p) a = record {
    taken = a.taken;
    on_the_way = a.on_the_way;
    sync_holds = a.sync_holds;
    records = a.records;
    waiting = a.waiting ++ e ∷ [];
    ingest_holds = push_taken s.ingest r a.waiting a.ingest_holds e p;
    accepted_parts =
        ap (λ l. l ++ e ∷ []) a.accepted_parts ∙ append_assoc a.taken a.waiting (e ∷ []);
  }
  Step-Accounted {s = s} (overflow e r p) a = record {
    waiting = a.waiting;
    taken = a.taken;
    on_the_way = a.on_the_way;
    sync_holds = a.sync_holds;
    accepted_parts = a.accepted_parts;
    records = a.records;
    ingest_holds = push_refused s.ingest r a.waiting a.ingest_holds e p;
  }
  Step-Accounted {s = s} (take_event e made r h p c) a =
      let (rest, q, holds) = pop_taken s.ingest r a.waiting a.ingest_holds e p in
      record {
        waiting = rest;
        taken = a.taken ++ e ∷ [];
        on_the_way = a.on_the_way;
        ingest_holds = holds;
        sync_holds = a.sync_holds;
        accepted_parts =
            a.accepted_parts ∙ ap (◌++◌ a.taken) q ∙ sym (append_assoc a.taken (e ∷ []) rest);
        records =
            subst (Compared (a.taken ++ e ∷ []))
              (append_assoc (ran s) (a.on_the_way ++ []) (made ∷ [])
                ∙ ap (λ l. ran s ++ (l ++ made ∷ [])) (append-nil a.on_the_way))
              (Compared-append a.taken (ran s ++ (a.on_the_way ++ [])) e made
                (subst (λ o. Compared a.taken (ran s ++ (a.on_the_way ++ of_held o))) h a.records)
                c);
      }
  Step-Accounted {s = s} (no_event r p) a = record {
    waiting = a.waiting;
    taken = a.taken;
    on_the_way = a.on_the_way;
    sync_holds = a.sync_holds;
    accepted_parts = a.accepted_parts;
    records = a.records;
    ingest_holds = pop_nothing s.ingest r a.waiting a.ingest_holds p;
  }
  Step-Accounted {s = s} (offer made r h p) a = record {
    waiting = a.waiting;
    taken = a.taken;
    ingest_holds = a.ingest_holds;
    accepted_parts = a.accepted_parts;
    on_the_way = a.on_the_way ++ made ∷ [];
    sync_holds = push_taken s.sync r a.on_the_way a.sync_holds made p;
    records =
        subst (λ l. Compared a.taken (ran s ++ l)) (sym (append-nil (a.on_the_way ++ made ∷ [])))
          (subst (λ o. Compared a.taken (ran s ++ (a.on_the_way ++ of_held o))) h a.records);
  }
  Step-Accounted {s = s} (no_room made r h p) a = record {
    waiting = a.waiting;
    taken = a.taken;
    on_the_way = a.on_the_way;
    ingest_holds = a.ingest_holds;
    accepted_parts = a.accepted_parts;
    records = a.records;
    sync_holds = push_refused s.sync r a.on_the_way a.sync_holds made p;
  }
  Step-Accounted {s = s} (execute made stored r p) a =
      let (rest, q, holds) = pop_taken s.sync r a.on_the_way a.sync_holds made p in
      record {
        waiting = a.waiting;
        taken = a.taken;
        ingest_holds = a.ingest_holds;
        accepted_parts = a.accepted_parts;
        on_the_way = rest;
        sync_holds = holds;
        records =
            subst (Compared a.taken)
              (sym (append_assoc (ran s) (made ∷ []) (rest ++ of_held s.held))
                ∙ ap (λ l. l ++ (rest ++ of_held s.held))
                    (sym (map-append (λ (e : R × Bool). e.0) s.executed ((made, stored) ∷ []))))
              (subst (λ l. Compared a.taken (ran s ++ (l ++ of_held s.held))) q a.records);
      }
  Step-Accounted {s = s} (no_record r p) a = record {
    waiting = a.waiting;
    taken = a.taken;
    on_the_way = a.on_the_way;
    ingest_holds = a.ingest_holds;
    accepted_parts = a.accepted_parts;
    records = a.records;
    sync_holds = pop_nothing s.sync r a.on_the_way a.sync_holds p;
  }

  -- However the steps of the three threads are interleaved, from a state that is accounted for: the
  -- records whose statements have been run, each once and whether or not a row came of it, those on
  -- their way and the one held are the records of the events taken so far, one for each and in the order
  -- in which the events were accepted, and the events accepted otherwise wait in the ring.
  pub Reach-Accounted : {s t : Threads E R} → Accounted s → Reach compare s t → Accounted t
  Reach-Accounted a here = a
  Reach-Accounted a (next r st) = Step-Accounted st (Reach-Accounted a r)

  -- Two valid rings that hold nothing make a state that is accounted for.
  pub start-Accounted :
      (ingest : Ring E) (sync : Ring R)
      → Holds ingest []
      → Holds sync []
      → Accounted
          (record { ingest = ingest; sync = sync; held = none; accepted = []; executed = [] })
  start-Accounted ingest sync h k = record {
    waiting = [];
    taken = [];
    on_the_way = [];
    ingest_holds = h;
    sync_holds = k;
    accepted_parts = refl;
    records = tt;
  }
