-- ===== src/Llm/Usage.antt =====
-- llm/usage.py: the token usage of one call, and its sum over a run.
use forge_agent.Base.{
  ℕ, ◌+◌, ◌≡◌, refl, Bool, if◌then◌else◌, List, [], ◌∷◌, ◌++◌, arith, ◌∙◌, ap, sym,
}

pub record TokenUsage : Type 0 where
  pub input_tokens : ℕ
  pub cached_tokens : ℕ
  pub cache_write_tokens : ℕ
  pub output_tokens : ℕ
  pub reasoning_tokens : ℕ
  pub estimated : Bool

pub record SessionUsage : Type 0 where
  pub llm_calls : ℕ
  pub input_tokens : ℕ
  pub cached_tokens : ℕ
  pub cache_write_tokens : ℕ
  pub output_tokens : ℕ
  pub reasoning_tokens : ℕ
  pub estimated_calls : ℕ
  pub unattributed_tokens : ℕ

abbrev pub unused : SessionUsage
unused = record {
  llm_calls = 0;
  input_tokens = 0;
  cached_tokens = 0;
  cache_write_tokens = 0;
  output_tokens = 0;
  reasoning_tokens = 0;
  estimated_calls = 0;
  unattributed_tokens = 0;
}

pub total_tokens : SessionUsage → ℕ
total_tokens s = s.input_tokens + s.output_tokens + s.unattributed_tokens

-- SessionUsage.record
pub recorded : SessionUsage → TokenUsage → SessionUsage
recorded s u = record s {
  llm_calls = s.llm_calls + 1;
  input_tokens = s.input_tokens + u.input_tokens;
  cached_tokens = s.cached_tokens + u.cached_tokens;
  cache_write_tokens = s.cache_write_tokens + u.cache_write_tokens;
  output_tokens = s.output_tokens + u.output_tokens;
  reasoning_tokens = s.reasoning_tokens + u.reasoning_tokens;
  estimated_calls = s.estimated_calls + (if u.estimated then 1 else 0);
}

-- SessionUsage.add
pub add : SessionUsage → SessionUsage → SessionUsage
add s t = record {
  llm_calls = s.llm_calls + t.llm_calls;
  input_tokens = s.input_tokens + t.input_tokens;
  cached_tokens = s.cached_tokens + t.cached_tokens;
  cache_write_tokens = s.cache_write_tokens + t.cache_write_tokens;
  output_tokens = s.output_tokens + t.output_tokens;
  reasoning_tokens = s.reasoning_tokens + t.reasoning_tokens;
  estimated_calls = s.estimated_calls + t.estimated_calls;
  unattributed_tokens = s.unattributed_tokens + t.unattributed_tokens;
}

pub recorded_all : SessionUsage → List TokenUsage → SessionUsage
recorded_all s [] = s
recorded_all s (u ∷ us) = recorded_all (recorded s u) us

add-recorded : (s t : SessionUsage) (u : TokenUsage) → add s (recorded t u) ≡ recorded (add s t) u
unfolding add recorded
add-recorded s t u = ground arith

add-recorded_from :
    (s t : SessionUsage) (us : List TokenUsage)
    → add s (recorded_all t us) ≡ recorded_all (add s t) us
unfolding recorded_all
add-recorded_from s t [] = refl
add-recorded_from s t (u ∷ us) =
    add-recorded_from s (recorded t u) us ∙ ap (λ r. recorded_all r us) (add-recorded s t u)

recorded_all-append :
    (s : SessionUsage) (us vs : List TokenUsage)
    → recorded_all s (us ++ vs) ≡ recorded_all (recorded_all s us) vs
unfolding recorded_all
recorded_all-append s [] vs = refl
recorded_all-append s (u ∷ us) vs = recorded_all-append (recorded s u) us vs

add-unused : (s : SessionUsage) → add s unused ≡ s
unfolding add
add-unused s = grind arith

-- The usage of the calls of two parts of a session, added, is that of all the calls in one session.
pub add-recorded_all :
    (us vs : List TokenUsage)
    → add (recorded_all unused us) (recorded_all unused vs) ≡ recorded_all unused (us ++ vs)
add-recorded_all us vs =
    add-recorded_from (recorded_all unused us) unused vs
    ∙ ap (λ r. recorded_all r vs) (add-unused (recorded_all unused us))
    ∙ sym (recorded_all-append unused us vs)

pub recorded-llm_calls :
    (s : SessionUsage) (u : TokenUsage) → (recorded s u).llm_calls ≡ s.llm_calls + 1
unfolding recorded
recorded-llm_calls s u = refl
