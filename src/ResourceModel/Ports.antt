-- ===== src/ResourceModel/Ports.antt =====
-- platform_resource_model.py `validate_ports`. A Boolean is an integer in Python, and a `True` stays
-- one in the result.
use klokast_box.Prelude.{
  ℕ, ◌≡◌, refl, sym, ap, subst, ◌∙◌, ◌<◌, ◌≤◌, Bool, true, false, ◌&&◌, ◌||◌, List, [], ◌∷◌, ◌==◌,
  ltb, leb, elem, All, arith, if◌then◌else◌, Bool-cases, ==_iff, ltb→lt, inl, inr,
}
use klokast_box.Checks.{Outcome, ok, raised, ◌>>=◌, check, >>=-Returned, check-eq-ok, ok-injective}
use klokast_box.ResourceModel.Values.{items}
use klokast_box.ResourceModel.{Refusal, died, Value, Sequence}

abbrev pub in_range : ℕ → Bool
in_range n = leb 1 n && leb n 65535

-- An integer, and `True`, which is the integer 1 but is written otherwise.
pub data Port : Type 0 where
  plain : ℕ → Port
  true_port : Port

abbrev pub port_number : Port → ℕ
port_number (Port.plain n) = n
port_number Port.true_port = 1

abbrev pub numbers_of : List Port → List ℕ
numbers_of [] = []
numbers_of (p ∷ ps) = port_number p ∷ numbers_of ps

-- The integer that a value is.
abbrev pub read_port : Value → Outcome Refusal Port
read_port (Value.integer n) = ok (Port.plain n)
read_port (Value.boolean true) = ok Port.true_port
read_port (Value.boolean false) = ok (Port.plain 0)
read_port (Value.negative n) = raised (died "contains an invalid TCP/UDP port")
read_port _ = raised (died "must contain integer ports only")

unfoldable pub read_ports : Sequence → Outcome Refusal (List Port)
read_ports Sequence.no_items = ok []
read_ports (Sequence.item value rest) =
    let others = read_ports rest in
    read_port value >>= λ p.
    check (in_range (port_number p)) (died "contains an invalid TCP/UDP port") >>= λ _.
    others >>= λ ports. ok (p ∷ ports)

-- Of ports that are equal, the first of the list is kept.
unfoldable pub insert : Port → List Port → List Port
insert p [] = p ∷ []
insert p (q ∷ qs) =
    let later = insert p qs in
    if port_number p == port_number q
    then p ∷ qs
    else if ltb (port_number p) (port_number q)
    then p ∷ q ∷ qs
    else q ∷ later

-- `sorted(set(ports))`
unfoldable pub sorted_set : List Port → List Port
sorted_set [] = []
sorted_set (p ∷ ps) = insert p (sorted_set ps)

unfoldable pub validate_ports : Value → Outcome Refusal (List Port)
unfolding read_ports sorted_set
validate_ports (Value.sequence (Sequence.item value rest)) =
    read_ports (Sequence.item value rest) >>= λ ports. ok (sorted_set ports)
validate_ports _ = raised (died "must be a non-empty list of explicit ports")

-- Each element is above the bound, and each is above the one before.
abbrev pub Ascending : ℕ → List ℕ → Type 0
Ascending low [] = Unit
Ascending low (n ∷ ns) = (low < n) × Ascending n ns

-- Whether a value of the list stands for the port.
abbrev pub stands_for : ℕ → Value → Bool
stands_for n (Value.integer m) = n == m
stands_for n (Value.boolean true) = n == 1
stands_for n (Value.boolean false) = n == 0
stands_for n _ = false

abbrev pub names_port : ℕ → Sequence → Bool
names_port n Sequence.no_items = false
names_port n (Sequence.item value rest) = stands_for n value || names_port n rest

-- The numbers of the ports, inserted into numbers.
insert_number : ℕ → List ℕ → List ℕ
insert_number n [] = n ∷ []
insert_number n (m ∷ ms) =
    let later = insert_number n ms in
    if n == m then m ∷ ms else if ltb n m then n ∷ m ∷ ms else m ∷ later

insert-numbers_of :
    (p : Port) (qs : List Port)
    → numbers_of (insert p qs) ≡ insert_number (port_number p) (numbers_of qs)
unfolding insert insert_number
insert-numbers_of p [] = refl
insert-numbers_of p (q ∷ qs) = elim (Bool-cases (port_number p == port_number q)) [
  | inl same ↦
      rw same (ap (λ n. n ∷ numbers_of qs) ((==_iff (port_number p) (port_number q)).0 same))
  | inr differs ↦ elim (Bool-cases (ltb (port_number p) (port_number q))) [
    | inl below ↦ rw (differs, below) refl
    | inr above ↦ rw (differs, above) (ap (λ ns. port_number q ∷ ns) (insert-numbers_of p qs))
  ]
]

insert_number-Ascending :
    (low n : ℕ) (ms : List ℕ) → low < n → Ascending low ms → Ascending low (insert_number n ms)
unfolding insert_number
insert_number-Ascending low n [] h a = (h, tt)
insert_number-Ascending low n (m ∷ ms) h a = elim (Bool-cases (n == m)) [
  | inl same ↦ rw same a
  | inr differs ↦ elim (Bool-cases (ltb n m)) [
    | inl below ↦ rw (differs, below) (h, (ltb→lt n m below, a.1))
    | inr above ↦ rw (differs, above) (a.0, insert_number-Ascending m n ms (ground arith) a.1)
  ]
]

swap_or : (a b c : Bool) → (a || b || c) ≡ (b || a || c)
swap_or a b c = ground arith

insert_number-elem :
    (k n : ℕ) (ms : List ℕ) → elem ◌==◌ k (insert_number n ms) ≡ (k == n || elem ◌==◌ k ms)
unfolding insert_number
insert_number-elem k n [] = ground arith
insert_number-elem k n (m ∷ ms) = ground (arith, insert_number-elem k n ms)

insert_number-Bounded :
    (n : ℕ) (ms : List ℕ)
    → n ≤ 65535
    → All (λ m. m ≤ 65535) ms
    → All (λ m. m ≤ 65535) (insert_number n ms)
unfolding insert_number
insert_number-Bounded n [] h a = (h, tt)
insert_number-Bounded n (m ∷ ms) h a = elim (Bool-cases (n == m)) [
  | inl same ↦ rw same a
  | inr differs ↦ elim (Bool-cases (ltb n m)) [
    | inl below ↦ rw (differs, below) (h, a)
    | inr above ↦ rw (differs, above) (a.0, insert_number-Bounded n ms h a.1)
  ]
]

-- What is known of the ports once they are sorted.
record Listed (items : Sequence) (ns : List ℕ) : Type 0 where
  ascending : Ascending 0 ns
  bounded : All (λ n. n ≤ 65535) ns
  same : (k : ℕ) → elem ◌==◌ k ns ≡ names_port k items

read_port-names :
    (value : Value) (p : Port)
    → read_port value ≡ ok p
    → (k : ℕ) → (k == port_number p) ≡ stands_for k value
read_port-names (Value.integer m) n h k = ap (λ p. k == port_number p) (sym (ok-injective h))
read_port-names (Value.boolean true) n h k = ap (λ p. k == port_number p) (sym (ok-injective h))
read_port-names (Value.boolean false) n h k = ap (λ p. k == port_number p) (sym (ok-injective h))
read_port-names (Value.negative m) n h k = cc
read_port-names (Value.text s) n h k = cc
read_port-names Value.empty n h k = cc
read_port-names (Value.sequence s) n h k = cc
read_port-names (Value.mapping m) n h k = cc
read_port-names (Value.other_scalar s z) n h k = cc

both_or : {a b c d : Bool} → a ≡ b → c ≡ d → (a || c) ≡ (b || d)
both_or h k = cc

in_range-bounds : (n : ℕ) → in_range n ≡ true → (0 < n) × (n ≤ 65535)
in_range-bounds n h = (ground arith, ground arith)

read_ports-Listed :
    (items : Sequence) (ports : List Port)
    → read_ports items ≡ ok ports
    → Listed items (numbers_of (sorted_set ports))
unfolding read_ports sorted_set
read_ports-Listed Sequence.no_items ports h =
    subst (λ ps. Listed Sequence.no_items (numbers_of (sorted_set ps))) (ok-injective h)
      (record { ascending = tt; bounded = tt; same = λ k. refl })
read_ports-Listed (Sequence.item value rest) ports h =
    let a = >>=-Returned (read_port value) _ h in
    let b =
      >>=-Returned (check (in_range (port_number a.0)) (died "contains an invalid TCP/UDP port")) _
        a.2 in
    let c = >>=-Returned (read_ports rest) _ b.2 in
    let r = read_ports-Listed rest c.0 c.1 in
    let n = port_number a.0 in
    let ns = numbers_of (sorted_set c.0) in
    let bounds = in_range-bounds n (check-eq-ok _ _ b.1) in
    subst (λ ps. Listed (Sequence.item value rest) (numbers_of (sorted_set ps))) (ok-injective c.2)
      (subst (Listed (Sequence.item value rest)) (sym (insert-numbers_of a.0 (sorted_set c.0)))
        (record {
          ascending = insert_number-Ascending 0 n ns bounds.0 r.ascending;
          bounded = insert_number-Bounded n ns bounds.1 r.bounded;
          same =
              λ k. insert_number-elem k n ns ∙ both_or (read_port-names value a.0 a.1 k) (r.same k);
        }))

-- A value of a list of ports, by the port that it stands for.
abbrev pub IsPort : Value → Type 0
IsPort value = (n : ℕ) × (stands_for n value ≡ true) × (0 < n) × (n ≤ 65535)

-- A list that is not empty and has nothing but ports.
abbrev pub HasPorts : Value → Type 0
HasPorts value =
    (first : Value) × (rest : Sequence) × (value ≡ Value.sequence (Sequence.item first rest))
    × All IsPort (items (Sequence.item first rest))

read_ports-IsPort :
    (s : Sequence) (ports : List Port) → read_ports s ≡ ok ports → All IsPort (items s)
unfolding read_ports
read_ports-IsPort Sequence.no_items ports h = tt
read_ports-IsPort (Sequence.item value rest) ports h =
    let a = >>=-Returned (read_port value) _ h in
    let b =
      >>=-Returned (check (in_range (port_number a.0)) (died "contains an invalid TCP/UDP port")) _
        a.2 in
    let c = >>=-Returned (read_ports rest) _ b.2 in
    let bounds = in_range-bounds (port_number a.0) (check-eq-ok _ _ b.1) in
    (
      (
        port_number a.0,
        sym (read_port-names value a.0 a.1 (port_number a.0)) ∙ same_number (port_number a.0),
        bounds.0,
        bounds.1,
      ),
      read_ports-IsPort rest c.0 c.1,
    )
  where
    same_number : (n : ℕ) → (n == n) ≡ true
    same_number n = ground arith

-- A list of ports that is accepted is a list that is not empty, and the result has each port that
-- the list names, a Boolean counted as 0 or 1, exactly once, in ascending order, none below 1 or
-- above 65535.
pub validate_ports_sound :
    (value : Value) (ports : List Port)
    → validate_ports value ≡ ok ports
    → (first : Value) × (rest : Sequence) × (value ≡ Value.sequence (Sequence.item first rest))
      × Ascending 0 (numbers_of ports)
      × All (λ n. n ≤ 65535) (numbers_of ports)
      × ((k : ℕ) → elem ◌==◌ k (numbers_of ports) ≡ names_port k (Sequence.item first rest))
unfolding validate_ports
validate_ports_sound (Value.sequence (Sequence.item first rest)) ports h =
    let a = >>=-Returned (read_ports (Sequence.item first rest)) _ h in
    let l =
      subst (λ ps. Listed (Sequence.item first rest) (numbers_of ps)) (ok-injective a.2)
        (read_ports-Listed (Sequence.item first rest) a.0 a.1) in
    (first, rest, refl, l.ascending, l.bounded, l.same)
validate_ports_sound (Value.sequence Sequence.no_items) ports h = cc
validate_ports_sound (Value.text s) ports h = cc
validate_ports_sound (Value.integer n) ports h = cc
validate_ports_sound (Value.negative n) ports h = cc
validate_ports_sound (Value.boolean b) ports h = cc
validate_ports_sound Value.empty ports h = cc
validate_ports_sound (Value.mapping m) ports h = cc
validate_ports_sound (Value.other_scalar s z) ports h = cc

pub validate_ports-HasPorts :
    (value : Value) (ports : List Port) → validate_ports value ≡ ok ports → HasPorts value
unfolding validate_ports
validate_ports-HasPorts (Value.sequence (Sequence.item first rest)) ports h =
    let a = >>=-Returned (read_ports (Sequence.item first rest)) _ h in
    (first, rest, refl, read_ports-IsPort (Sequence.item first rest) a.0 a.1)
validate_ports-HasPorts (Value.sequence Sequence.no_items) ports h = cc
validate_ports-HasPorts (Value.text s) ports h = cc
validate_ports-HasPorts (Value.integer n) ports h = cc
validate_ports-HasPorts (Value.negative n) ports h = cc
validate_ports-HasPorts (Value.boolean b) ports h = cc
validate_ports-HasPorts Value.empty ports h = cc
validate_ports-HasPorts (Value.mapping m) ports h = cc
validate_ports-HasPorts (Value.other_scalar s z) ports h = cc
