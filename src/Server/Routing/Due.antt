-- ===== src/Server/Routing/Due.antt =====
-- The duties of the tasks of gateway/server.rs that change the routes and the registry.
use iog.Prelude.{
  ℕ, ◌≡◌, ◌⊎◌, sym, ap, ◌∙◌, Bool, true, false, none, some, List, ◌==◌, arith, nat_eq, contains,
  Bool-cases, inl, inr,
}
use iog.Map
use iog.Server.Routing.{Duty, routing, dropping}

-- Whether a task still has to route or to drop a link.
abbrev pub concerns : Duty → ℕ → Bool
concerns (routing link_id addr) id = link_id == id
concerns (dropping ids) id = contains ids id

pub record Due (duties : List (ℕ × Duty)) (id : ℕ) : Type 0 where
  pub number : ℕ
  pub duty : Duty
  pub there : Map.get duties number ≡ some duty
  pub about : concerns duty id ≡ true

-- A new task leaves the others'.
pub Due-insert :
    (duties : List (ℕ × Duty)) (n : ℕ) (d : Duty) (id : ℕ)
    → Map.get duties n ≡ none
    → Due duties id
    → Due (Map.insert duties n d) id
Due-insert duties n d id fresh due =
    let other : (n == due.number) ≡ false = elim (Bool-cases (n == due.number)) [
      | inl same ↦
          let same' : n ≡ due.number = ground arith in
          let there = due.there in let gone = sym (ap (Map.get duties) same') ∙ fresh in cc
      | inr e ↦ e
    ] in
    record {
      number = due.number;
      duty = due.duty;
      there = rw (Map.get-insert duties n d due.number, other) due.there;
      about = due.about;
    }

pub new-Due :
    (duties : List (ℕ × Duty)) (n : ℕ) (d : Duty) (id : ℕ)
    → concerns d id ≡ true
    → Due (Map.insert duties n d) id
new-Due duties n d id about = record {
  number = n;
  duty = d;
  there = ground (arith, Map.get-insert duties n d n);
  about = about;
}

-- A duty is that of a certain task, or it is still there when that task has moved on.
pub Due-cases :
    (duties : List (ℕ × Duty)) (n : ℕ) (d : Duty) (id : ℕ)
    → Map.get duties n ≡ some d
    → Due duties id
    → (concerns d id ≡ true)
      ⊎ (((d' : Duty) → Due (Map.insert duties n d') id) × Due (Map.remove duties n) id)
Due-cases duties n d id at due = elim (Bool-cases (n == due.number)) [
  | inl e ↦
      let same : n ≡ due.number = ground arith in
      let this : some d ≡ some due.duty = sym at ∙ ap (Map.get duties) same ∙ due.there in
      let same_duty : due.duty ≡ d = cc in inl (sym (ap (λ x. concerns x id) same_duty) ∙ due.about)
  | inr e ↦ inr (
    λ d'. record {
      number = due.number;
      duty = due.duty;
      there = rw (Map.get-insert duties n d' due.number, e) due.there;
      about = due.about;
    },
    record {
      number = due.number;
      duty = due.duty;
      there = rw (Map.get-remove duties n due.number, e) due.there;
      about = due.about;
    },
  )
]
