-- ===== src/Fd/Shared.antt =====
-- `desc_incref` and `desc_decref` keep every counter equal to the references that lead to it.
use mona_rpzero.Prelude.{
  ℕ, zero, suc, ◌+◌, ◌*◌, ◌≤◌, ◌<◌, ◌≡◌, refl, sym, ap, ◌∙◌, ◌≢◌, inl, inr, true, Table, get, put,
  get-put_self, get-put_ne, if◌then◌else◌, ◌==◌, leb, arith, sum_below, sum_below_change,
  le-sum_below, sum_below-zero, lt→leb_false, subst, add32, ==_ne, if_cases, ℕ_discrete, Bool-cases,
}
use mona_rpzero.Fd.{
  Open, Desc, Kind, put_desc, with_refs, less_one, desc_incref, desc_decref, hook_incref,
  hook_decref,
}
use mona_rpzero.Fd.Counts.{
  Key, InRange, counter, in_use, leads, one_if, Joined, Left, hook_incref-Joined, hook_decref-Left,
}

-- What one description adds to a counter: its references, if it leads there.
abbrev pub weight : Desc → Key → ℕ
weight d key = if leads d.kind key then d.refs else 0

unfoldable pub users : Table Desc → Key → ℕ
users t key = sum_below (λ i. weight (get t i) key) 64

-- Every counter is the number of references that lead to it, and what is referred to is in use.
pub record IsShared (o : Open) : Type 0 where
  pub counted : (key : Key) → InRange key → counter o key ≡ users o.descs key
  pub alive : (key : Key) → InRange key → 0 < counter o key → in_use o key ≡ true

-- References stay far below the limits of the counters.
abbrev pub Few : Open → Type 0
Few o = (i : ℕ) → i < 64 → (get o.descs i).refs ≤ 600

sum_below-le : (f : ℕ → ℕ) (n : ℕ) → ((j : ℕ) → j < n → f j ≤ 600) → sum_below f n ≤ n * 600
unfolding sum_below
sum_below-le f zero h = omega arith
sum_below-le f (suc n) h =
    omega (arith, sum_below-le f n (λ j p. h j (omega arith)), h n (omega arith))

weight-le : (d : Desc) (key : Key) → d.refs ≤ 600 → weight d key ≤ 600
weight-le d key h = ground arith

pub users-le : (o : Open) (key : Key) → Few o → users o.descs key ≤ 38400
unfolding users
users-le o key few =
    sum_below-le (λ i. weight (get o.descs i) key) 64
      (λ j p. weight-le (get o.descs j) key (few j p))

pub weight-users :
    (t : Table Desc) (key : Key) (i : ℕ) → i < 64 → weight (get t i) key ≤ users t key
unfolding users
weight-users t key i lt = le-sum_below (λ j. weight (get t j) key) 64 i lt

pub users-zero :
    (t : Table Desc) (key : Key) → ((i : ℕ) → i < 64 → weight (get t i) key ≡ 0) → users t key ≡ 0
unfolding users
users-zero t key h = sum_below-zero (λ j. weight (get t j) key) 64 h

-- The sum after one description is written.
pub users-put :
    (t : Table Desc) (i : ℕ) (d : Desc) (key : Key)
    → i < 64
    → users (put t i d) key + weight (get t i) key ≡ users t key + weight d key
unfolding users
users-put t i d key lt =
    sum_below_change (λ j. weight (get (put t i d) j) key) (λ j. weight (get t j) key) 64 i lt
      (λ j ne. ap (λ e. weight e key) (get-put_ne t i j d ne))
    ∙ ap (λ e. users t key + weight e key) (get-put_self t i d)

-- Sharing is kept where one description and the counters that it leads to move together.
pub step-IsShared :
    (o o' : Open) (i : ℕ) (d : Desc)
    → i < 64
    → o'.descs ≡ put o.descs i d
    → IsShared o
    → ((key : Key)
        → InRange key
        → counter o' key + weight (get o.descs i) key ≡ counter o key + weight d key)
    → ((key : Key) → InRange key → 0 < counter o' key → in_use o' key ≡ true)
    → IsShared o'
step-IsShared o o' i d lt e shared moves live = record {
  counted = λ key near. omega (
    arith,
    ap (λ t. users t key) e,
    users-put o.descs i d key lt,
    shared.counted key near,
    moves key near,
  );
  alive = live;
}

pub counter-put_desc :
    (o : Open) (i : ℕ) (d : Desc) (key : Key) → counter (put_desc o i d) key ≡ counter o key
counter-put_desc o i d (Key.reader id) = refl
counter-put_desc o i d (Key.writer id) = refl
counter-put_desc o i d (Key.sock id) = refl
counter-put_desc o i d (Key.conn id) = refl

pub in_use-put_desc :
    (o : Open) (i : ℕ) (d : Desc) (key : Key) → in_use (put_desc o i d) key ≡ in_use o key
in_use-put_desc o i d (Key.reader id) = refl
in_use-put_desc o i d (Key.writer id) = refl
in_use-put_desc o i d (Key.sock id) = refl
in_use-put_desc o i d (Key.conn id) = refl

pub descs-hook_incref : (o : Open) (kind : Kind) → (hook_incref o kind).descs ≡ o.descs
descs-hook_incref o (Kind.pipe id end) = refl
descs-hook_incref o (Kind.udp6 id) = refl
descs-hook_incref o (Kind.tcp6 id) = refl
descs-hook_incref o kind = refl

pub descs-hook_decref : (o : Open) (kind : Kind) → (hook_decref o kind).descs ≡ o.descs
descs-hook_decref o (Kind.pipe id end) = refl
descs-hook_decref o (Kind.udp6 id) = refl
descs-hook_decref o (Kind.tcp6 id) = refl
descs-hook_decref o kind = refl

weight_more :
    (d : Desc) (key : Key)
    → weight (with_refs (d.refs + 1) d) key ≡ weight d key + one_if (leads d.kind key)
weight_more d key = ground arith

weight_less :
    (d : Desc) (key : Key)
    → 0 < d.refs
    → d.refs ≤ 600
    → weight (less_one d) key + one_if (leads d.kind key) ≡ weight d key
weight_less d key pos small = ground arith

module _ (o : Open) (i : ℕ) (lt : i < 64) (shared : IsShared o) (few : Few o) where
  abbrev d : Desc
  d = get o.descs i

  few_users : (key : Key) → InRange key → counter o key < 65535
  few_users key near = omega (arith, shared.counted key near, users-le o key few)

  led_pos :
      (key : Key)
      → InRange key
      → 0 < d.refs
      → leads (get o.descs i).kind key ≡ true
      → (in_use o key ≡ true) × (0 < counter o key)
  led_pos key near pos led =
      let c : 0 < counter o key =
        omega (arith, shared.counted key near, weight-users o.descs key i lt, weight_led) in
      (shared.alive key near c, c)
    where
      weight_led : weight (get o.descs i) key ≡ d.refs
      weight_led = rw led refl

  abbrev joined : Open
  joined = hook_incref (put_desc o i (with_refs (d.refs + 1) d)) d.kind

  abbrev left : Open
  left = put_desc (hook_decref o d.kind) i (less_one d)

  -- A counter that has, or will have, references belongs to something in use.
  already :
      (key : Key)
      → InRange key
      → 0 < d.refs
      → 0 < counter o key + one_if (leads d.kind key)
      → in_use o key ≡ true
  already key near pos some_refs = elim (Bool-cases (leads d.kind key)) [
    | inl led ↦ (led_pos key near pos led).0
    | inr no_lead ↦ shared.alive key near (omega (arith, ap one_if no_lead))
  ]

  -- The hook and the counter of the description move together.
  more : 0 < d.refs → IsShared joined
  more pos =
      let o1 : Open = put_desc o i (with_refs (d.refs + 1) d) in
      let same : (key : Key) → counter o1 key ≡ counter o key =
        counter-put_desc o i (with_refs (d.refs + 1) d) in
      let kept : (key : Key) → in_use o1 key ≡ in_use o key =
        in_use-put_desc o i (with_refs (d.refs + 1) d) in
      let j : (key : Key) → InRange key → Joined o1 d.kind joined key = λ key near.
        hook_incref-Joined o1 d.kind key near (λ led. kept key ∙ (led_pos key near pos led).0)
          (omega (arith, same key, few_users key near)) in
      step-IsShared o joined i (with_refs (d.refs + 1) d) lt (descs-hook_incref o1 d.kind) shared
        (λ key near. omega (arith, (j key near).count, same key, weight_more d key))
        (λ key near pos'.
          (j key near).used
          ∙ kept key
          ∙ already key near pos (omega (arith, (j key near).count, same key)))

  fewer : 0 < d.refs → IsShared left
  fewer pos =
      let o1 : Open = hook_decref o d.kind in
      let same : (key : Key) → counter left key ≡ counter o1 key =
        counter-put_desc o1 i (less_one d) in
      let kept : (key : Key) → in_use left key ≡ in_use o1 key =
        in_use-put_desc o1 i (less_one d) in
      let l : (key : Key) → InRange key → Left o d.kind o1 key = λ key near.
        hook_decref-Left o d.kind key near (led_pos key near pos)
          (omega (arith, few_users key near)) in
      step-IsShared o left i (less_one d) lt
        (ap (λ t. put t i (less_one d)) (descs-hook_decref o d.kind)) shared
        (λ key near. omega (arith, (l key near).count, same key, weight_less d key pos (few i lt)))
        (λ key near pos'.
          kept key
          ∙ (l key near).used (shared.alive key near (omega (arith, (l key near).count, same key)))
              (omega (arith, same key)))

  -- The calls of fd.c.
  pub desc_incref-eq : 0 < d.refs → desc_incref o i ≡ joined
  unfolding desc_incref
  desc_incref-eq pos =
      simp (lt→leb_false 64 i lt, ==_ne d.refs 0 (λ e. absurd (omega arith)), the_sum) refl
    where
      the_sum : add32 d.refs 1 ≡ d.refs + 1
      the_sum = omega (arith, few i lt)

  pub desc_decref-eq : 0 < d.refs → desc_decref o i ≡ left
  unfolding desc_decref
  desc_decref-eq pos = simp (lt→leb_false 64 i lt, ==_ne d.refs 0 (λ e. absurd (omega arith))) refl

  pub desc_incref-IsShared : 0 < d.refs → IsShared (desc_incref o i)
  desc_incref-IsShared pos = subst IsShared (sym (desc_incref-eq pos)) (more pos)

  pub desc_decref-IsShared : 0 < d.refs → IsShared (desc_decref o i)
  desc_decref-IsShared pos = subst IsShared (sym (desc_decref-eq pos)) (fewer pos)

  pub descs-desc_incref :
      0 < d.refs → (desc_incref o i).descs ≡ put o.descs i (with_refs (d.refs + 1) d)
  descs-desc_incref pos =
      ap Open.descs (desc_incref-eq pos)
      ∙ descs-hook_incref (put_desc o i (with_refs (d.refs + 1) d)) d.kind

  pub descs-desc_decref : 0 < d.refs → (desc_decref o i).descs ≡ put o.descs i (less_one d)
  descs-desc_decref pos =
      ap Open.descs (desc_decref-eq pos)
      ∙ ap (λ t. put t i (less_one d)) (descs-hook_decref o d.kind)

-- Descriptions other than the one named stay as they are, and counting up keeps every kind.
pub desc_incref_ne : (o : Open) (i j : ℕ) → j ≢ i → get (desc_incref o i).descs j ≡ get o.descs j
unfolding desc_incref
desc_incref_ne o i j ne =
    let d : Desc = get o.descs i in
    if_cases (λ (o' : Open). get o'.descs j ≡ get o.descs j) (leb 64 i) (λ _. refl)
      (λ _.
        if_cases (λ (o' : Open). get o'.descs j ≡ get o.descs j) (d.refs == 0) (λ _. refl)
          (λ _.
            ap (λ t. get t j)
              (descs-hook_incref (put_desc o i (with_refs (add32 d.refs 1) d)) d.kind)
            ∙ get-put_ne o.descs i j (with_refs (add32 d.refs 1) d) ne))

pub desc_decref_ne : (o : Open) (i j : ℕ) → j ≢ i → get (desc_decref o i).descs j ≡ get o.descs j
unfolding desc_decref
desc_decref_ne o i j ne =
    let d : Desc = get o.descs i in
    if_cases (λ (o' : Open). get o'.descs j ≡ get o.descs j) (leb 64 i) (λ _. refl)
      (λ _.
        if_cases (λ (o' : Open). get o'.descs j ≡ get o.descs j) (d.refs == 0) (λ _. refl)
          (λ _.
            get-put_ne (hook_decref o d.kind).descs i j (less_one d) ne
            ∙ ap (λ t. get t j) (descs-hook_decref o d.kind)))

desc_incref_kind_self :
    (o : Open) (i : ℕ) → (get (desc_incref o i).descs i).kind ≡ (get o.descs i).kind
unfolding desc_incref
desc_incref_kind_self o i =
    let d : Desc = get o.descs i in
    if_cases (λ (o' : Open). (get o'.descs i).kind ≡ d.kind) (leb 64 i) (λ _. refl)
      (λ _.
        if_cases (λ (o' : Open). (get o'.descs i).kind ≡ d.kind) (d.refs == 0) (λ _. refl)
          (λ _.
            ap {A = Table Desc} (λ t. (get t i).kind)
              (descs-hook_incref (put_desc o i (with_refs (add32 d.refs 1) d)) d.kind)
            ∙ ap Desc.kind (get-put_self o.descs i (with_refs (add32 d.refs 1) d))))

pub desc_incref_kind :
    (o : Open) (i j : ℕ) → (get (desc_incref o i).descs j).kind ≡ (get o.descs j).kind
desc_incref_kind o i j = elim (ℕ_discrete j i) [
  | no ne ↦ ap Desc.kind (desc_incref_ne o i j ne)
  | yes e ↦
      subst (λ k. (get (desc_incref o i).descs k).kind ≡ (get o.descs k).kind) (sym e)
        (desc_incref_kind_self o i)
]

-- Counting down keeps the kind while a reference is left.
pub desc_decref_kind :
    (o : Open) (i : ℕ)
    → 1 < (get o.descs i).refs
    → (get o.descs i).refs ≤ 600
    → (get (desc_decref o i).descs i).kind ≡ (get o.descs i).kind
unfolding desc_decref
desc_decref_kind o i many small =
    let d : Desc = get o.descs i in
    if_cases (λ (o' : Open). (get o'.descs i).kind ≡ d.kind) (leb 64 i) (λ _. refl)
      (λ _.
        if_cases (λ (o' : Open). (get o'.descs i).kind ≡ d.kind) (d.refs == 0) (λ _. refl)
          (λ _.
            ap Desc.kind (get-put_self (hook_decref o d.kind).descs i (less_one d))
            ∙ kept d many small))
  where
    kept : (d : Desc) → 1 < d.refs → d.refs ≤ 600 → (less_one d).kind ≡ d.kind
    kept d many small = ground arith
