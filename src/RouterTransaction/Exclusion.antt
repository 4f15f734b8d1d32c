-- ===== src/RouterTransaction/Exclusion.antt =====
-- What is known of a router transaction between two of the adapter's calls, with one rule for each
-- way to go on: a checkpoint, and an action under a deadline.
pub mod Recovery
pub mod Fencing
pub mod Recover
pub mod Forward
use klokast_box.Prelude.{
  ℕ, ◌≡◌, ◌≢◌, refl, sym, subst, Bool, true, false, ◌||◌, ltb, Option, none, some, List, [], ◌∷◌,
  ◌∙◌, arith,
}
use klokast_box.Effects.{◌>>=◌}
use klokast_box.Effects.Triple.{
  Triple, Holds, Triple-bind, Triple-pure, Triple-require, Triple-weaken, Triple-fault,
}
use klokast_box.RouterTransaction.Contract.{Request, Phase, Reason, Pending, validate_pending}
use klokast_box.RouterTransaction.Journal.{
  Adapter, Answer, Call, Generation, old, candidate, Result, Reply, returned, failed, Event, called,
  Exn, Transaction, Tx, get_pending, set_pending, perform, monotonic, checkpoint, action,
  next_pending, answer,
}
use klokast_box.RouterTransaction.History.{
  is_same, unless, final_phase, loser, may_run, may_run_after, durable, record_after, Permitted,
  Lawful,
}

-- `o` and `c` say that the old and the candidate generation are known not to run, `w` that the
-- object's record, `q`, is the durable one.
pub record At (init : Generation → Bool) (w o c : Bool) (q : Option Pending) (s : Transaction)
    : Type 0 where
  pub lawful : Lawful init s.log
  pub old_off : o ≡ true → may_run init old s.log ≡ false
  pub candidate_off : c ≡ true → may_run init candidate s.log ≡ false
  pub current : s.pending ≡ q
  pub written : w ≡ true → durable s.log ≡ q

-- What is known after a raise.
abbrev pub Fault : (Generation → Bool) → Transaction → Type 0
Fault init s = Lawful init s.log

abbrev pub Rule :
    {A : Type 0}
    → (Generation → Bool)
    → (Transaction → Type 0)
    → Tx A
    → (Transaction → Type 0)
    → Type 0
Rule init P m Q = Triple P m (λ _. Q) (λ _. Fault init)

-- Whether a generation is known not to run after a call that returned.
abbrev pub off_after : Call → Generation → Bool → Bool
off_after (Call.start h) g known = unless (is_same g h) known
off_after (Call.stop h) g known = is_same g h || known
off_after Call.fence_all g known = true
off_after _ g known = known

abbrev pub is_persist : Call → Bool
is_persist (Call.persist p) = true
is_persist _ = false

off_after_sound :
    (k : Call) (g : Generation) (a : Answer) (known runs : Bool)
    → (known ≡ true → runs ≡ false)
    → off_after k g known ≡ true
    → may_run_after k (returned a) g runs ≡ false
off_after_sound k g a known runs h e = ground arith

record_after-plain :
    (k : Call) (a : Answer) (q : Option Pending)
    → is_persist k ≡ false
    → record_after k (returned a) q ≡ q
record_after-plain k a q e = ground arith

-- Before a first cutover.
pub fresh :
    {init : Generation → Bool}
    → init candidate ≡ false
    → At init false false true none (record { pending = none; log = [] })
fresh e = record {
  lawful = tt;
  old_off = λ x. cc;
  candidate_off = λ x. e;
  current = refl;
  written = λ x. cc;
}

pub forget_old :
    {init : Generation → Bool} {w o c : Bool} {q : Option Pending} {s : Transaction}
    → At init w o c q s
    → At init w false c q s
forget_old h = record {
  lawful = h.lawful;
  old_off = λ e. cc;
  candidate_off = h.candidate_off;
  current = h.current;
  written = h.written;
}

-- After a raise the object's record is some record, and no generation is known to be off.
pub unknown :
    {init : Generation → Bool} (s : Transaction)
    → Fault init s
    → (q : Option Pending) × At init false false false q s
unknown s h = (
  s.pending,
  record {
    lawful = h;
    old_off = λ e. cc;
    candidate_off = λ e. cc;
    current = refl;
    written = λ e. cc;
  },
)

-- A result is returned under its durable final phase, with the other generation known to be off.
pub record Settled (init : Generation → Bool) (r : Result) (s : Transaction) : Type 0 where
  pub lawful : Lawful init s.log
  pub final : Pending
  pub current : s.pending ≡ some final
  pub written : durable s.log ≡ some final
  pub phase : final.phase ≡ final_phase r
  pub loser_off : may_run init (loser r) s.log ≡ false

-- A recovery that raises has recorded its failure, in the object at least; and where it says that
-- both generations are fenced, both are known to be off.
pub record Fenced (init : Generation → Bool) (e : Exn) (s : Transaction) : Type 0 where
  pub lawful : Lawful init s.log
  pub final : Pending
  pub current : s.pending ≡ some final
  pub phase : final.phase ≡ Phase.recovery_failed
  pub old_off : e ≡ Exn.recovery_fenced → may_run init old s.log ≡ false
  pub candidate_off : e ≡ Exn.recovery_fenced → may_run init candidate s.log ≡ false

-- A read of the object's record, where that is known.
pub get_pending-bind :
    {A : Type 0} {P : Transaction → Type 0} {Q : A → Transaction → Type 0}
    {R : Exn → Transaction → Type 0} {q : Option Pending} (f : Option Pending → Tx A)
    → ((s : Transaction) → P s → s.pending ≡ q)
    → Triple P (f q) Q R
    → Triple P (get_pending >>= f) Q R
unfolding get_pending ◌>>=◌
get_pending-bind {Q = Q} {R = R} f known t = record {
  at = λ s h. subst (λ v. Holds Q R (f v s)) (sym (known s h)) (t.at s h);
}

module _ (init : Generation → Bool) (adapter : Adapter) where
  set_pending-At :
      {w o c : Bool} {q : Option Pending} {F : Exn → Transaction → Type 0} (p : Pending)
      → Triple (At init w o c q) (set_pending p) (λ _. At init false o c (some p)) F
  unfolding set_pending
  set_pending-At p = record {
    at = λ s h. record {
      lawful = h.lawful;
      old_off = h.old_off;
      candidate_off = h.candidate_off;
      current = refl;
      written = λ e. cc;
    };
  }

  pub monotonic-At :
      {w o c : Bool} {q : Option Pending} {F : Exn → Transaction → Type 0}
      → Triple (At init w o c q) (monotonic adapter) (λ _. At init w o c q) F
  unfolding monotonic
  monotonic-At = record {
    at = λ s h. record {
      lawful = h.lawful;
      old_off = h.old_off;
      candidate_off = h.candidate_off;
      current = h.current;
      written = h.written;
    };
  }

  -- A call of the adapter returns or raises, and the history says which.
  perform-At :
      {P Q : Transaction → Type 0} {F : Exn → Transaction → Type 0} (k : Call)
      → ((s : Transaction) (a : Answer)
          → P s
          → Q (record s { log = called k (returned a) ∷ s.log }))
      → ((s : Transaction) → P s → F Exn.adapter_error (record s { log = called k failed ∷ s.log }))
      → Triple P (perform adapter k) (λ _. Q) F
  unfolding perform
  perform-At {P} {Q} {F} k on_return on_raise = record {
    at = λ s h. go s h (adapter.reply s.log k);
  }
    where
      go :
          (s : Transaction)
          → P s
          → (r : Reply) → Holds (λ _. Q) F (answer r, record s { log = called k r ∷ s.log })
      go s h (returned a) = on_return s a h
      go s h failed = on_raise s h

  pub plain-At :
      {w o c : Bool} {q : Option Pending} (k : Call)
      → is_persist k ≡ false
      → ((s : Transaction) → At init w o c q s → Permitted init k s.log)
      → Rule init
          (At init w o c q)
          (perform adapter k)
          (At init w (off_after k old o) (off_after k candidate c) q)
  plain-At {o = o} {c = c} k e permitted =
      perform-At k
        (λ s a h. record {
          lawful = (permitted s h, h.lawful);
          old_off = off_after_sound k old a o _ h.old_off;
          candidate_off = off_after_sound k candidate a c _ h.candidate_off;
          current = h.current;
          written = λ t. record_after-plain k a _ e ∙ h.written t;
        })
        (λ s h. (permitted s h, h.lawful))

  module _ (request : Request) where
    pub action-At :
        {w o c : Bool} {q : Option Pending} (k : Call) (deadline : ℕ)
        → is_persist k ≡ false
        → ((s : Transaction) → At init w o c q s → Permitted init k s.log)
        → Rule init
            (At init w o c q)
            (action adapter request k deadline)
            (At init w (off_after k old o) (off_after k candidate c) q)
    unfolding action
    action-At k deadline e permitted = Triple-bind monotonic-At λ now.
        Triple-bind (Triple-require _ _ (λ s h. h.lawful)) λ _.
          Triple-bind (Triple-weaken (λ s h. h.0) (plain-At k e permitted)) λ a.
            Triple-bind monotonic-At λ later.
              Triple-bind (Triple-require _ _ (λ s h. h.lawful)) λ _. Triple-pure a (λ s h. h.0)

    -- A checkpoint that raises leaves its record in the object, and is not the fence's error.
    pub checkpoint-exact :
        {w o c : Bool} {q : Option Pending} (phase : Phase) (started old_started : Option Bool)
        (reason : Option Reason)
        → let next = some (next_pending request q phase started old_started reason) in
          Triple
            (At init w o c q)
            (checkpoint adapter request phase started old_started reason)
            (λ _. At init true o c next)
            (λ e s. (e ≢ Exn.recovery_fenced) × At init false o c next s)
    unfolding checkpoint
    checkpoint-exact phase started old_started reason =
        get_pending-bind _ (λ s h. h.current)
          (Triple-bind (set_pending-At _) λ _.
            Triple-bind (Triple-require _ _ (λ s h. ((λ x. cc), h))) λ _.
              Triple-weaken (λ s h. h.0)
                (perform-At (Call.persist _)
                  (λ s a h. record {
                    lawful = (tt, h.lawful);
                    old_off = h.old_off;
                    candidate_off = h.candidate_off;
                    current = h.current;
                    written = λ _. refl;
                  })
                  (λ s h. (
                    (λ x. cc),
                    record {
                      lawful = (tt, h.lawful);
                      old_off = h.old_off;
                      candidate_off = h.candidate_off;
                      current = h.current;
                      written = λ x. cc;
                    },
                  ))))

    pub checkpoint-At :
        {w o c : Bool} {q : Option Pending} (phase : Phase) (started old_started : Option Bool)
        (reason : Option Reason)
        → Rule init
            (At init w o c q)
            (checkpoint adapter request phase started old_started reason)
            (At init true o c (some (next_pending request q phase started old_started reason)))
    checkpoint-At phase started old_started reason =
        Triple-fault (λ e s h. h.1.lawful) (checkpoint-exact phase started old_started reason)
