-- ===== src/Checkpoint/Commit.antt =====
-- `commit`, on any store (crates/workflow/src/checkpoint/manager.rs).
use rust_agent_framework.Common.{
  ℕ, ◌+◌, ◌%◌, ◌^◌, String, Option, List, Map, get-insert, ◌≡◌, sym, arith, eq_iff, subst, if-cases,
  if◌then◌else◌, ◌==◌, Bool-cases, inl, inr, AgentError, Result, ok, err,
}
use rust_agent_framework.Envelope.{Envelope}
use rust_agent_framework.Checkpoint.{
  ScopeKey, CheckpointInfo, CheckpointConfig, CheckpointStore, manager_disabled, Manager, count_of,
  is_full, parent_of, counted, committed, commit,
}

module _ {S V : Type 0} (store : CheckpointStore S V) (config : CheckpointConfig) where
  abbrev pub next_count : Result CheckpointInfo → ℕ → ℕ
  next_count (ok info) count = (count + 1) % 2 ^ 32
  next_count (err e) count = count

  count_of-counted :
      (session : String) (count : ℕ) (r : Result CheckpointInfo × S) (m : Manager S)
      (other : String)
      → count_of store config other (counted store config session count r m).1 ≡ (
          if session == other
          then next_count (counted store config session count r m).0 count
          else count_of store config other m)
  count_of-counted session count (ok info, s) m other =
      ground (arith, get-insert session other ((count + 1) % 2 ^ 32) m.counter)
  count_of-counted session count (err e, s) m other =
      ground (arith, get-insert session other count m.counter)

  abbrev pub IsCounted : String → Manager S → String → Result CheckpointInfo × Manager S → Type 0
  IsCounted session m other done = count_of store config other done.1 ≡ (
      if session == other
      then next_count done.0 (count_of store config session m)
      else count_of store config other m)

  committed-IsCounted :
      (now : ℕ) (session fingerprint : String) (state : List (ScopeKey × V)) (edges : Map V)
      (pending : List (Envelope V V)) (step : ℕ) (m : Manager S) (parent : Result (Option String))
      (other : String)
      → IsCounted session m other
          (committed store config now session fingerprint state edges pending step m parent)
  committed-IsCounted now session fingerprint state edges pending step m (err e) other =
      count_of-counted session (count_of store config session m) (err e, m.store) m other
  committed-IsCounted now session fingerprint state edges pending step m (ok parent) other =
      count_of-counted session (count_of store config session m) _ m other

  unchanged-IsCounted :
      (session : String) (m : Manager S) (e : AgentError) (other : String)
      → IsCounted session m other (err e, m)
  unchanged-IsCounted session m e other = elim (Bool-cases (session == other)) [
    | inl same ↦ rw (same, (eq_iff session other).0 same)
    | inr differ ↦ rw differ
  ]

  -- The commits of a session are counted: one that returns a pointer raises the count by one (mod
  -- 2^32), one that returns an error leaves it, and no commit touches the count of another session.
  pub commit-IsCounted :
      (now : ℕ) (session fingerprint : String) (state : List (ScopeKey × V)) (edges : Map V)
      (pending : List (Envelope V V)) (step : ℕ) (m : Manager S) (other : String)
      → IsCounted session m other
          (commit store config now session fingerprint state edges pending step m)
  unfolding commit
  commit-IsCounted now session fingerprint state edges pending step m other =
      let parent =
        parent_of store config session (is_full store config (count_of store config session m))
          m.store in
      elim (if-cases config.enabled
        (committed store config now session fingerprint state edges pending step m parent)
        (err manager_disabled, m)) [
          | inl (on, same) ↦
              subst (IsCounted session m other) (sym same) (
                committed-IsCounted now session fingerprint state edges pending step m parent other)
          | inr (off, same) ↦
              subst (IsCounted session m other) (sym same)
                (unchanged-IsCounted session m manager_disabled other)
        ]
