-- ===== src/Daemon/Claims.antt =====
-- What a fault holds of the host: iptables rules and root qdiscs, counted; and what `iptables` and `tc`
-- do to the count, as their manuals say.
use chaosplane.Prelude.{
  ℕ, ◌+◌, ◌-◌, ◌≡◌, ◌≢◌, String, Bool, true, false, ◌&&◌, none, List, [], ◌∷◌, ◌++◌, arith, ◌==◌,
  string_eq, if◌then◌else◌, ℤ, refl, ap, ◌∙◌, inl, inr, eq_iff, Bool-cases, Option-cases,
}
use chaosplane.Daemon.Host.{Runner, append_rules, delete_rules}

pub data Claim : Type 0 where
  rule : List String → Claim
  qdisc : String → Claim

abbrev pub same_words : List String → List String → Bool
same_words [] [] = true
same_words (a ∷ s) (b ∷ t) = a == b && same_words s t
same_words _ _ = false

abbrev pub same_claim : Claim → Claim → Bool
same_claim (rule s) (rule t) = same_words s t
same_claim (qdisc i) (qdisc j) = i == j
same_claim _ _ = false

-- How often a claim stands in a list.
abbrev pub times : Claim → List Claim → ℕ
times c [] = 0
times c (d ∷ ds) = (if same_claim d c then 1 else 0) + times c ds

abbrev pub rules : List (List String) → List Claim
rules [] = []
rules (body ∷ bodies) = rule body ∷ rules bodies

pub times-append : (c : Claim) (xs ys : List Claim) → times c (xs ++ ys) ≡ times c xs + times c ys
times-append c [] ys = omega arith
times-append c (x ∷ xs) ys = omega (arith, times-append c xs ys)

-- A view of the host that counts its claims, and what the commands do to it: `iptables -A` appends a
-- rule, `iptables -D` takes away one copy of a rule, `tc qdisc add` and `del` do the same for the root
-- qdisc of an interface, each of them changes nothing when it answers an error, and no other call
-- touches either.
pub record Accountable {H : Type 0} (os : Runner H) (held : H → Claim → ℕ) : Type 0 where
  pub append_ok :
      (body : List String) (h : H)
      → (os.run "iptables" ("-A" ∷ body) h).1 ≡ none
      → (c : Claim)
      → held (os.run "iptables" ("-A" ∷ body) h).0 c ≡ held h c + times c (rule body ∷ [])
  pub append_err :
      (body : List String) (h : H)
      → (os.run "iptables" ("-A" ∷ body) h).1 ≢ none
      → (c : Claim) → held (os.run "iptables" ("-A" ∷ body) h).0 c ≡ held h c
  pub delete_ok :
      (body : List String) (h : H)
      → (os.run "iptables" ("-D" ∷ body) h).1 ≡ none
      → (c : Claim)
      → held (os.run "iptables" ("-D" ∷ body) h).0 c ≡ held h c - times c (rule body ∷ [])
  pub delete_err :
      (body : List String) (h : H)
      → (os.run "iptables" ("-D" ∷ body) h).1 ≢ none
      → (c : Claim) → held (os.run "iptables" ("-D" ∷ body) h).0 c ≡ held h c
  pub add_ok :
      (iface : String) (args : List String) (h : H)
      → (os.run "tc" ("qdisc" ∷ "add" ∷ "dev" ∷ iface ∷ "root" ∷ args) h).1 ≡ none
      → (c : Claim)
      → held (os.run "tc" ("qdisc" ∷ "add" ∷ "dev" ∷ iface ∷ "root" ∷ args) h).0 c
        ≡ held h c + times c (qdisc iface ∷ [])
  pub add_err :
      (iface : String) (args : List String) (h : H)
      → (os.run "tc" ("qdisc" ∷ "add" ∷ "dev" ∷ iface ∷ "root" ∷ args) h).1 ≢ none
      → (c : Claim)
      → held (os.run "tc" ("qdisc" ∷ "add" ∷ "dev" ∷ iface ∷ "root" ∷ args) h).0 c ≡ held h c
  pub remove_ok :
      (iface : String) (h : H)
      → (os.run "tc" ("qdisc" ∷ "del" ∷ "dev" ∷ iface ∷ "root" ∷ []) h).1 ≡ none
      → (c : Claim)
      → held (os.run "tc" ("qdisc" ∷ "del" ∷ "dev" ∷ iface ∷ "root" ∷ []) h).0 c
        ≡ held h c - times c (qdisc iface ∷ [])
  pub remove_err :
      (iface : String) (h : H)
      → (os.run "tc" ("qdisc" ∷ "del" ∷ "dev" ∷ iface ∷ "root" ∷ []) h).1 ≢ none
      → (c : Claim)
      → held (os.run "tc" ("qdisc" ∷ "del" ∷ "dev" ∷ iface ∷ "root" ∷ []) h).0 c ≡ held h c
  pub kill : (h : H) (c : Claim) → held (os.run "pkill" ("-f" ∷ "stress-ng" ∷ []) h).0 c ≡ held h c
  pub starts :
      (name : String) (args : List String) (h : H) (c : Claim)
      → held (os.start name args h).0 c ≡ held h c
  pub loads :
      (name : String) (percent : ℕ) (h : H) (c : Claim)
      → held (os.new_program name percent h).0 c ≡ held h c
  pub attaches : (i : ℤ) (p : ℕ) (h : H) (c : Claim) → held (os.attach i p h).0 c ≡ held h c
  pub closes_program : (p : ℕ) (h : H) (c : Claim) → held (os.close_program p h) c ≡ held h c
  pub closes_link : (l : ℕ) (h : H) (c : Claim) → held (os.close_link l h) c ≡ held h c

module _ {H : Type 0} {os : Runner H} {held : H → Claim → ℕ} (a : Accountable os held) where
  -- Rules that were all appended are all held.
  pub append_rules-held :
      (bodies : List (List String)) (h : H)
      → (append_rules os bodies h).1 ≡ none
      → (c : Claim) → held (append_rules os bodies h).0 c ≡ held h c + times c (rules bodies)
  unfolding append_rules
  append_rules-held [] h e c = omega arith
  append_rules-held (body ∷ bodies) h e c = ground (
    arith,
    a.append_ok body h,
    a.append_ok body h (ground (arith, e)) c,
    append_rules-held bodies (os.run "iptables" ("-A" ∷ body) h).0 (ground (arith, e)) c,
  )

-- Besides, a command that takes back a rule or a root qdisc that the host holds does not fail.
pub record Dependable {H : Type 0} (os : Runner H) (held : H → Claim → ℕ) : Type 0 where
  pub laws : Accountable os held
  pub deletes :
      (body : List String) (h : H)
      → (os.run "iptables" ("-D" ∷ body) h).1 ≢ none
      → held h (rule body) ≡ 0
  pub removes :
      (iface : String) (h : H)
      → (os.run "tc" ("qdisc" ∷ "del" ∷ "dev" ∷ iface ∷ "root" ∷ []) h).1 ≢ none
      → held h (qdisc iface) ≡ 0

same_words_sound : (s t : List String) → same_words s t ≡ true → s ≡ t
same_words_sound [] [] h = refl
same_words_sound [] (b ∷ t) h = ground (arith, h)
same_words_sound (a ∷ s) [] h = ground (arith, h)
same_words_sound (a ∷ s) (b ∷ t) h =
    let heads = (eq_iff a b).0 (ground (arith, h)) in
    let tails = same_words_sound s t (ground (arith, h)) in rw (heads, tails)

same_claim_sound : (d c : Claim) → same_claim d c ≡ true → d ≡ c
same_claim_sound (rule s) (rule t) h = ap rule (same_words_sound s t h)
same_claim_sound (qdisc i) (qdisc j) h = ap qdisc ((eq_iff i j).0 h)
same_claim_sound (rule s) (qdisc j) h = ground (arith, h)
same_claim_sound (qdisc i) (rule t) h = ground (arith, h)

-- Nothing is to be taken away of a claim that is not held.
nothing_left :
    {H : Type 0} (held : H → Claim → ℕ) (h : H) (d c : Claim)
    → held h d ≡ 0
    → held h c ≡ held h c - times c (d ∷ [])
nothing_left held h d c none_held = elim (Bool-cases (same_claim d c)) [
  | inr f ↦ ground (arith, f)
  | inl t ↦ let same = ap (held h) (same_claim_sound d c t) in omega (arith, same, none_held)
]

module _ {H : Type 0} {os : Runner H} {held : H → Claim → ℕ} (a : Dependable os held) where
  delete-held :
      (body : List String) (h : H) (c : Claim)
      → held (os.run "iptables" ("-D" ∷ body) h).0 c ≡ held h c - times c (rule body ∷ [])
  delete-held body h c = elim (Option-cases (os.run "iptables" ("-D" ∷ body) h).1) [
    | inl e ↦ a.laws.delete_ok body h e c
    | inr (x, e) ↦
        let failed : (os.run "iptables" ("-D" ∷ body) h).1 ≢ none = λ n. ground (arith, n, e) in
        a.laws.delete_err body h failed c
        ∙ nothing_left held h (rule body) c (a.deletes body h failed)
  ]

  remove-held :
      (iface : String) (h : H) (c : Claim)
      → held (os.run "tc" ("qdisc" ∷ "del" ∷ "dev" ∷ iface ∷ "root" ∷ []) h).0 c
        ≡ held h c - times c (qdisc iface ∷ [])
  remove-held iface h c =
      elim (Option-cases (os.run "tc" ("qdisc" ∷ "del" ∷ "dev" ∷ iface ∷ "root" ∷ []) h).1) [
        | inl e ↦ a.laws.remove_ok iface h e c
        | inr (x, e) ↦
            let failed : (os.run "tc" ("qdisc" ∷ "del" ∷ "dev" ∷ iface ∷ "root" ∷ []) h).1 ≢ none =
              λ n. ground (arith, n, e) in
            a.laws.remove_err iface h failed c
            ∙ nothing_left held h (qdisc iface) c (a.removes iface h failed)
      ]

-- How the commands that take a fault back turn out: `taken c ds` is how often they take the claim `c`
-- away when they are asked to take back `ds`.
pub record Undoes {H : Type 0} (os : Runner H) (held : H → Claim → ℕ)
    (taken : Claim → List Claim → ℕ) : Type 0 where
  pub laws : Accountable os held
  pub delete :
      (body : List String) (h : H) (c : Claim)
      → held (os.run "iptables" ("-D" ∷ body) h).0 c ≡ held h c - taken c (rule body ∷ [])
  pub remove :
      (iface : String) (h : H) (c : Claim)
      → held (os.run "tc" ("qdisc" ∷ "del" ∷ "dev" ∷ iface ∷ "root" ∷ []) h).0 c
        ≡ held h c - taken c (qdisc iface ∷ [])
  pub nothing : (c : Claim) → taken c [] ≡ 0
  pub both : (c d : Claim) (ds : List Claim) → taken c (d ∷ ds) ≡ taken c (d ∷ []) + taken c ds

-- On a dependable host they take back each claim.
pub Dependable-Undoes :
    {H : Type 0} {os : Runner H} {held : H → Claim → ℕ} → Dependable os held → Undoes os held times
Dependable-Undoes a = record {
  laws = a.laws;
  delete = delete-held a;
  remove = remove-held a;
  nothing = λ c. refl;
  both = λ c d ds. omega arith;
}

-- Where each of them fails, none.
pub failing-Undoes :
    {H : Type 0} {os : Runner H} {held : H → Claim → ℕ}
    → Accountable os held
    → ((body : List String) (h : H) → (os.run "iptables" ("-D" ∷ body) h).1 ≢ none)
    → ((iface : String) (h : H)
        → (os.run "tc" ("qdisc" ∷ "del" ∷ "dev" ∷ iface ∷ "root" ∷ []) h).1 ≢ none)
    → Undoes os held (λ c ds. 0)
failing-Undoes a iptables_fails tc_fails = record {
  laws = a;
  delete = λ body h c. omega (arith, a.delete_err body h (iptables_fails body h) c);
  remove = λ iface h c. omega (arith, a.remove_err iface h (tc_fails iface h) c);
  nothing = λ c. refl;
  both = λ c d ds. refl;
}

pub delete_rules-held :
    {H : Type 0} {os : Runner H} {held : H → Claim → ℕ} {taken : Claim → List Claim → ℕ}
    (u : Undoes os held taken) (bodies : List (List String)) (h : H) (c : Claim)
    → held (delete_rules os bodies h) c ≡ held h c - taken c (rules bodies)
unfolding delete_rules
delete_rules-held u [] h c = omega (arith, u.nothing c)
delete_rules-held {os} u (body ∷ bodies) h c = omega (
  arith,
  u.delete body h c,
  u.both c (rule body) (rules bodies),
  delete_rules-held u bodies (os.run "iptables" ("-D" ∷ body) h).0 c,
)
