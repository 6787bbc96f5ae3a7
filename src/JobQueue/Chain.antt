-- ===== src/JobQueue/Chain.antt =====
-- The jobs that a well-formed queue holds, the oldest first.
use reactor_server.Prelude.{
  ℕ, ◌≡◌, ◌≢◌, refl, sym, ◌∙◌, subst, List, [], ◌∷◌, ◌++◌, Option, none, some, length, arith, All,
  All-append,
}
use reactor_server.JobQueue.{Job, ThreadJobQueue}

-- The jobs behind `a` in the order of `prev`, up to the head.
abbrev pub Links : (ℕ → Job) → ℕ → List ℕ → Option ℕ → Type 0
Links jobs a [] head = head ≡ some a
Links jobs a (b ∷ rest) head = ((jobs a).prev ≡ some b) × Links jobs b rest head

-- No job twice.
abbrev pub Distinct : List ℕ → Type 0
Distinct [] = Unit {0}
Distinct (a ∷ rest) = All (λ b. b ≢ a) rest × Distinct rest

abbrev pub Ends : (ℕ → Job) → List ℕ → Option ℕ → Option ℕ → Type 0
Ends jobs [] head tail = (head ≡ none) × (tail ≡ none)
Ends jobs (a ∷ rest) head tail = (tail ≡ some a) × Links jobs a rest head

pub record Holds (js : List ℕ) (q : ThreadJobQueue) : Type 0 where
  pub number_is : q.number ≡ length js
  pub distinct : Distinct js
  pub ends : Ends q.jobs js q.head q.tail

-- The links hold as long as no `prev` changes.
pub Links-prev :
    (jobs jobs' : ℕ → Job) (a : ℕ) (rest : List ℕ) (head : Option ℕ)
    → ((j : ℕ) → (jobs' j).prev ≡ (jobs j).prev)
    → Links jobs a rest head
    → Links jobs' a rest head
Links-prev jobs jobs' a [] head same l = l
Links-prev jobs jobs' a (b ∷ rest) head same l =
    (same a ∙ l.0, Links-prev jobs jobs' b rest head same l.1)

-- The head is one of the jobs.
pub Links-head :
    (jobs : ℕ → Job) (a : ℕ) (rest : List ℕ) (head : Option ℕ)
    → Links jobs a rest head
    → (h : ℕ) × (head ≡ some h) × ((c : ℕ) → All (λ b. b ≢ c) (a ∷ rest) → h ≢ c)
Links-head jobs a [] head l = (a, l, λ c out. out.0)
Links-head jobs a (b ∷ rest) head l =
    let (h, is, other) = Links-head jobs b rest head l.1 in (h, is, λ c out. other c out.1)

-- A job is linked behind the head.
pub Links-append :
    (jobs jobs' : ℕ → Job) (a : ℕ) (rest : List ℕ) (h x : ℕ)
    → Distinct (a ∷ rest)
    → All (λ b. b ≢ x) (a ∷ rest)
    → (jobs' h).prev ≡ some x
    → ((j : ℕ) → j ≢ h → j ≢ x → (jobs' j).prev ≡ (jobs j).prev)
    → Links jobs a rest (some h)
    → Links jobs' a (rest ++ x ∷ []) (some x)
Links-append jobs jobs' a [] h x d out new same l =
    let at : h ≡ a = ground (arith, l) in (subst (λ k. (jobs' k).prev ≡ some x) at new, refl)
Links-append jobs jobs' a (b ∷ rest) h x d out new same l =
    let (k, is, other) = Links-head jobs b rest (some h) l.1 in
    let there : h ≡ k = ground (arith, is) in
    (
      same a (λ e. other a d.0 (sym there ∙ sym e)) out.0 ∙ l.0,
      Links-append jobs jobs' b rest h x d.1 out.1 new same l.1,
    )

pub Distinct-append :
    (js : List ℕ) (x : ℕ) → Distinct js → All (λ b. b ≢ x) js → Distinct (js ++ x ∷ [])
Distinct-append [] x d out = (tt, tt)
Distinct-append (a ∷ js) x d out = (
  All-append (λ b. b ≢ a) js (x ∷ []) d.0 (λ e. out.0 (sym e), tt),
  Distinct-append js x d.1 out.1,
)
