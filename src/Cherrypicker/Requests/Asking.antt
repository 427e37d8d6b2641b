-- ===== src/Cherrypicker/Requests/Asking.antt =====
-- Who asked for which cherry-pick: the requests that handlePullRequest of
-- prow/external-plugins/cherrypicker/server.go gathers from comments and labels.
use ci_infra_gardener.Prelude.{
  ◌≡◌, refl, subst, inl, inr, true, Option, none, some, List, [], ◌∷◌, ◌++◌, arith, Text, ◌==◌,
  ==_iff, Has, All, All-append, contains, has_prefix, trim_prefix, cut_prefix, cut_prefix_iff,
  is_some, or_else, if◌then◌else◌, Bool-cases, Option-cases,
}
use ci_infra_gardener.Prelude.Sets.{lookup, put}
use ci_infra_gardener.Cherrypicker.Commands.{Commands, parse_comment}
use ci_infra_gardener.Cherrypicker.Picking.{Comment}
use ci_infra_gardener.Cherrypicker.Requests.{
  Requests, Request, put_request, gather_commands, gather_comments, gather_labels, of_trusted,
  flatten, requests_of, is_nil,
}
use ci_infra_gardener.Cherrypicker.Requests.Merged.{with_author}

-- What holds of each value of a map, by its key.
module _ {V : Type 0} (P : Text → V → Type 0) where
  abbrev pub Each : List (Text × V) → Type 0
  Each m = All (λ entry. P entry.0 entry.1) m

  Each-put : (k : Text) (v : V) (m : List (Text × V)) → P k v → Each m → Each (put k v m)
  unfolding put
  Each-put k v [] p h = (p, tt)
  Each-put k v ((j, w) ∷ m) p h = elim (Bool-cases (j == k)) [
    | inl e ↦ rw e (p, h.1)
    | inr d ↦ rw d (h.0, Each-put k v m p h.1)
  ]

  Each-lookup :
      (k : Text) (d : V) (m : List (Text × V)) → P k d → Each m → P k (or_else (lookup k m) d)
  unfolding lookup
  Each-lookup k d [] p h = p
  Each-lookup k d ((j, w) ∷ m) p h = elim (Bool-cases (j == k)) [
    | inl e ↦ rw e (subst (λ x. P x w) ((==_iff j k).0 e) h.0)
    | inr n ↦ rw n (Each-lookup k d m p h.1)
  ]

module _ (prefix author : Text) (comments : List Comment) (labels : List Text) where
  -- The requestor wrote a comment with a command for the branch.
  pub record IsCommanded (requestor target : Text) (c : Comment) : Type 0 where
    pub commands : Commands
    pub chain : List Text
    pub one_of : Has c comments
    pub written_by : c.author ≡ requestor
    pub parsed : parse_comment c.body ≡ some commands
    pub commanded : Has (target, chain) commands

  -- A request comes from a comment, or from a label, for which the author of the pull request stands.
  abbrev pub IsAsked : (requestor target : Text) → Option Comment → Type 0
  IsAsked requestor target (some c) = IsCommanded requestor target c
  IsAsked requestor target none = (requestor ≡ author) × Has (prefix ++ target) labels

  abbrev AreAskedBy : (requestor : Text) → List (Text × Option Comment) → Type 0
  AreAskedBy requestor branches = Each (IsAsked requestor) branches

  abbrev AreAsked : Requests → Type 0
  AreAsked requests = Each AreAskedBy requests

  put-AreAsked :
      (requestor target : Text) (c : Option Comment) (requests : Requests)
      → IsAsked requestor target c
      → AreAsked requests
      → AreAsked (put_request requestor target c requests)
  unfolding put_request
  put-AreAsked requestor target c requests a h =
      Each-put AreAskedBy requestor _ requests
        (Each-put (IsAsked requestor) target c (or_else (lookup requestor requests) []) a
          (Each-lookup AreAskedBy requestor [] requests tt h))
        h

  -- Some of the commands of a comment are still to be gathered.
  commands-AreAsked :
      (c : Comment) (all : Commands)
      → Has c comments
      → parse_comment c.body ≡ some all
      → (rest : Commands) → ((entry : Text × List Text) → Has entry rest → Has entry all)
      → (gathered : Requests × Commands) → AreAsked gathered.0
      → AreAsked (gather_commands c rest gathered).0
  unfolding gather_commands
  commands-AreAsked c all m e [] sub gathered h = h
  commands-AreAsked c all m e ((target, chain) ∷ rest) sub (requests, chains) h =
      commands-AreAsked c all m e rest (λ entry k. sub entry (inr k))
        (
          put_request c.author target (some c) requests,
          if is_nil chain then chains else put target chain chains,
        )
        (put-AreAsked c.author target (some c) requests
          (record {
            commands = all;
            chain = chain;
            one_of = m;
            written_by = refl;
            parsed = e;
            commanded = sub (target, chain) (inl refl);
          })
          h)

  comments-AreAsked :
      (cs : List Comment)
      → ((c : Comment) → Has c cs → Has c comments)
      → (gathered found : Requests × Commands) → gather_comments cs gathered ≡ some found
      → AreAsked gathered.0
      → AreAsked found.0
  unfolding gather_comments
  comments-AreAsked [] sub gathered found e h =
      let same : gathered ≡ found = ground arith in subst (λ g. AreAsked g.0) same h
  comments-AreAsked (c ∷ cs) sub gathered found e h = elim (Option-cases (parse_comment c.body)) [
    | inl bad ↦ absurd (ground (arith, bad, e))
    | inr (commands, good) ↦
        comments-AreAsked cs (λ d k. sub d (inr k)) (gather_commands c commands gathered) found
          (ground (arith, good, e))
          (commands-AreAsked c commands (sub c (inl refl)) good commands (λ entry k. k) gathered h)
  ]

  prefixed :
      (label : Text) → has_prefix label prefix ≡ true → label ≡ prefix ++ trim_prefix label prefix
  unfolding has_prefix trim_prefix
  prefixed label h = elim (Option-cases (cut_prefix prefix label)) [
    | inl bad ↦ absurd (ground (arith, bad, h))
    | inr (rest, good) ↦ rw good ((cut_prefix_iff prefix label rest).0 good)
  ]

  labels-AreAsked :
      (ls : List Text)
      → ((l : Text) → Has l ls → Has l labels)
      → (requests : Requests) → AreAsked requests
      → AreAsked (gather_labels prefix author ls requests)
  unfolding gather_labels
  labels-AreAsked [] sub requests h = h
  labels-AreAsked (l ∷ ls) sub requests h = elim (Bool-cases (has_prefix l prefix)) [
    | inl b ↦ rw b (
        labels-AreAsked ls (λ x k. sub x (inr k)) _
          (put-AreAsked author (trim_prefix l prefix) none requests
            (refl, subst (λ x. Has x labels) (prefixed l b) (sub l (inl refl))) h))
    | inr b ↦ rw b (labels-AreAsked ls (λ x k. sub x (inr k)) requests h)
  ]

  author-AreAsked :
      (requests : Requests) → AreAsked requests → AreAsked (with_author author requests)
  unfolding with_author
  author-AreAsked requests h = elim (Bool-cases (is_some (lookup author requests))) [
    | inl b ↦ rw b h
    | inr b ↦ rw b (Each-put AreAskedBy author [] requests tt h)
  ]

  -- Everything that is gathered was asked for.
  pub gathered-AreAsked :
      (found : Requests × Commands)
      → gather_comments comments ([], []) ≡ some found
      → AreAsked (gather_labels prefix author labels (with_author author found.0))
  gathered-AreAsked found e =
      labels-AreAsked labels (λ l k. k) (with_author author found.0)
        (author-AreAsked found.0 (comments-AreAsked comments (λ c k. k) ([], []) found e tt))

  -- A request of a trusted user that was asked for.
  abbrev pub IsGrantable : (logins : List Text) → Request → Type 0
  IsGrantable logins r =
      (contains logins r.requestor ≡ true) × IsAsked r.requestor r.target_branch r.comment

  requests_of-IsGrantable :
      (logins : List Text) (requestor : Text) (branches : List (Text × Option Comment))
      → contains logins requestor ≡ true
      → AreAskedBy requestor branches
      → All (IsGrantable logins) (requests_of requestor branches)
  requests_of-IsGrantable logins requestor [] t h = tt
  requests_of-IsGrantable logins requestor (b ∷ branches) t h =
      ((t, h.0), requests_of-IsGrantable logins requestor branches t h.1)

  pub flatten-IsGrantable :
      (logins : List Text) (requests : Requests)
      → AreAsked requests
      → All (IsGrantable logins) (flatten (of_trusted logins requests))
  unfolding of_trusted flatten
  flatten-IsGrantable logins [] h = tt
  flatten-IsGrantable logins ((requestor, branches) ∷ requests) h =
      elim (Bool-cases (contains logins requestor)) [
        | inl b ↦ rw b (
            All-append _ (requests_of requestor branches) (flatten (of_trusted logins requests))
              (requests_of-IsGrantable logins requestor branches b h.0)
              (flatten-IsGrantable logins requests h.1))
        | inr b ↦ rw b (flatten-IsGrantable logins requests h.1)
      ]
