-- ===== src/Server/Usernames.antt =====
-- The names that are taken. `ClientManager` keeps a set of names beside the sessions; this is how
-- the two agree, and what each change of a session does to the agreement.
--
-- The empty name is apart: a session that has not joined has it, and removing such a session frees
-- it, though a client may have joined under it.
use axn_chat_app.Prelude.{
  ℕ, ◌≡◌, ◌≢◌, sym, ◌∙◌, true, false, Option, none, some, List, [], Bytes, same, same-eq, same_self,
  Bool-cases, inl, inr, arith,
}
use axn_chat_app.Prelude.Names
use axn_chat_app.Prelude.Names.{contains-insert, contains-erase}
use axn_chat_app.Server.State.{ClientSession}
use axn_chat_app.Server.Manager.{new_session}
use axn_chat_app.Server.Outcome.{with_entry}

pub record NamesAgree (table : ℕ → Option ClientSession) (names : List Bytes) : Type 0 where
  -- The name of a client that has joined is taken.
  pub taken :
      (k : ℕ) (s : ClientSession)
      → table k ≡ some s
      → s.is_authenticated ≡ true
      → s.username ≢ []
      → Names.contains s.username names ≡ true
  -- A client that has not joined has no name.
  pub unnamed :
      (k : ℕ) (s : ClientSession) → table k ≡ some s → s.is_authenticated ≡ false → s.username ≡ []
  -- Two clients that have joined do not have one name.
  pub unique :
      (j k : ℕ) (s t : ClientSession)
      → table j ≡ some s
      → table k ≡ some t
      → s.is_authenticated ≡ true
      → t.is_authenticated ≡ true
      → s.username ≡ t.username
      → s.username ≢ []
      → j ≡ k

-- It is a statement of the sessions at each descriptor.
pub NamesAgree-same :
    {table table' : ℕ → Option ClientSession} {names names' : List Bytes}
    → ((k : ℕ) → table' k ≡ table k)
    → names' ≡ names
    → NamesAgree table names
    → NamesAgree table' names'
NamesAgree-same e f a = record {
  taken = λ k s h auth named. rw f (a.taken k s (sym (e k) ∙ h) auth named);
  unnamed = λ k s h. a.unnamed k s (sym (e k) ∙ h);
  unique = λ j k s t h i. a.unique j k s t (sym (e j) ∙ h) (sym (e k) ∙ i);
}

module _ {table : ℕ → Option ClientSession} {names : List Bytes} (a : NamesAgree table names)
    (fd : ℕ) where
  -- A client joins under a name that is free.
  pub join-NamesAgree :
      (t : ClientSession)
      → t.is_authenticated ≡ true
      → Names.contains t.username names ≡ false
      → NamesAgree (with_entry table fd (some t)) (Names.insert t.username names)
  join-NamesAgree t auth free = record {
    taken = λ k u h joined named.
        ground
          (arith, contains-insert t.username u.username names, a.taken k u, same_self t.username);
    unnamed = λ k u h anonymous. ground (arith, a.unnamed k u);
    unique = λ j k u w h i ju jw e named.
        ground (arith, a.unique j k u w, a.taken j u, a.taken k w, named);
  }

  -- A client is removed, and its name with it.
  pub remove-NamesAgree :
      (s : ClientSession)
      → table fd ≡ some s
      → NamesAgree (with_entry table fd none) (Names.erase s.username names)
  remove-NamesAgree s at = record {
    taken = λ k u h joined named. elim (Bool-cases (same s.username u.username)) [
      | inl equal ↦
          let name = same-eq s.username u.username equal in
          elim (Bool-cases s.is_authenticated) [
            | inl auth ↦ absurd (ground (arith, a.unique k fd u s, sym name))
            | inr anonymous ↦ absurd (named (sym name ∙ a.unnamed fd s at anonymous))
          ]
      | inr differ ↦ ground (arith, contains-erase s.username u.username names, a.taken k u)
    ];
    unnamed = λ k u h anonymous. ground (arith, a.unnamed k u);
    unique = λ j k u w h i ju jw e named. ground (arith, a.unique j k u w);
  }

  -- A client that has not joined connects.
  pub accept-NamesAgree :
      (id : ℕ) → NamesAgree (with_entry table fd (some (new_session id fd))) names
  accept-NamesAgree id = record {
    taken = λ k u h joined named. ground (arith, a.taken k u);
    unnamed = λ k u h anonymous. ground (arith, a.unnamed k u);
    unique = λ j k u w h i ju jw e named. ground (arith, a.unique j k u w);
  }

  -- A session changes, but for its name and for whether it has joined.
  pub keep-NamesAgree :
      (s t : ClientSession)
      → table fd ≡ some s
      → t.username ≡ s.username
      → t.is_authenticated ≡ s.is_authenticated
      → NamesAgree (with_entry table fd (some t)) names
  keep-NamesAgree s t at name joined = record {
    taken = λ k u h ju named. ground (arith, a.taken k u, a.taken fd s);
    unnamed = λ k u h anonymous. ground (arith, a.unnamed k u, a.unnamed fd s);
    unique = λ j k u w h i ju jw e named.
        ground (arith, a.unique j k u w, a.unique fd k s w, a.unique j fd u s);
  }
