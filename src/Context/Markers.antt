-- ===== src/Context/Markers.antt =====
-- context/tool_pruning.py: the texts that stand for pruned tool outputs.
use forge_agent.Base.{
  ℕ, ◌-◌, ◌*◌, String, Bool, not, Option, none, some, List, [], ◌∷◌, ◌++◌, leb, if◌then◌else◌,
  length, drop, take, select, Text, codes, starts_with, rstrip, strip, split_lines, digits,
}
use forge_agent.Context.Evidence.{LlmMessage, ParsedObservation}

-- _copy_message
abbrev pub copy_message : LlmMessage → Text → LlmMessage
copy_message m content = record m { content = content }

-- f"{ref}"
abbrev ref_text : Option String → Text
ref_text none = codes "None"
ref_text (some r) = codes r

abbrev newline : Text
newline = 10 ∷ []

abbrev tool_header : Text → Text
tool_header tool = codes "[Tool: " ++ (tool ++ (codes " | SUCCESS]" ++ newline))

-- _audit_marker
unfoldable pub audit_marker : LlmMessage → Text → ℕ → Text
audit_marker m body body_tokens =
    body
    ++ (newline
        ++ (codes "[Pruned old tool output]"
            ++ (newline
                ++ (codes "original_chars="
                    ++ (codes (digits (length m.content))
                        ++ (newline
                            ++ (codes "original_body_tokens="
                                ++ (codes (digits body_tokens)
                                    ++ (newline
                                        ++ (codes "event_ref="
                                            ++ (ref_text m.event_ref
                                                ++ (newline
                                                    ++ codes
                                                        "full_output_available=true"))))))))))))

abbrev first_line : (Text → Bool) → Text → List Text → Text
first_line p default [] = default
first_line p default (l ∷ ls) = let rest = first_line p default ls in if p l then l else rest

unfoldable pub file_read_marker : LlmMessage → ParsedObservation → ℕ → Text
unfolding audit_marker
file_read_marker m o body_tokens =
    let metadata =
      first_line (λ l. starts_with l (codes "File: ")) (codes "File metadata unavailable")
        (split_lines o.body) in
    audit_marker m (tool_header o.tool_name ++ metadata) body_tokens

abbrev preview_chars : ℕ
preview_chars = 320

-- s[-n:] for a positive n
abbrev last_of {ℓ} : {A : Type ℓ} → ℕ → List A → List A
last_of n s = drop (length s - n) s

unfoldable pub shell_marker : LlmMessage → ParsedObservation → ℕ → Text
unfolding audit_marker
shell_marker m o body_tokens =
    let body = o.body in
    let omitted = length body - preview_chars * 2 in
    let preview =
      if leb (length body) (preview_chars * 2)
      then body
      else take preview_chars body
        ++ (newline
            ++ (codes "... [pruned "
                ++ (codes (digits omitted)
                    ++ (codes " chars] ..." ++ (newline ++ last_of preview_chars body))))) in
    audit_marker m (rstrip (tool_header o.tool_name ++ preview)) body_tokens

abbrev join_lines : List Text → Text
join_lines [] = []
join_lines (l ∷ []) = l
join_lines (l ∷ k ∷ ls) = l ++ (newline ++ join_lines (k ∷ ls))

abbrev is_blank : Text → Bool
is_blank l = leb (length (strip l)) 0

unfoldable pub test_marker : LlmMessage → ParsedObservation → ℕ → Text
unfolding audit_marker
test_marker m o body_tokens =
    let lines = select (λ l. not (is_blank l)) (split_lines o.body) in
    let tail = last_of 800 (join_lines (last_of 4 lines)) in
    audit_marker m (rstrip (tool_header o.tool_name ++ tail)) body_tokens

unfoldable pub duplicate_marker : Text → String → Text
duplicate_marker tool newer_ref =
    tool_header tool
    ++ (codes "[Pruned duplicate tool output]"
        ++ (newline
            ++ (codes "duplicate_of_event_ref="
                ++ (codes newer_ref ++ (newline ++ codes "full_output_available=true")))))
