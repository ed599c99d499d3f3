-- ===== src/Scanner/Rules.antt =====
-- The table `RULES` of app/firewall/scanner.py: names, categories, patterns and
-- directions.
use Prim.Native.String.{◌++◌}
use agentic_firewall.Base.{String, Bool, true, false, ◌||◌, List, [], ◌∷◌, keep}

pub data Direction : Type 0 where
  input output description : Direction

pub record Rule : Type 0 where
  pub name : String
  pub category : String
  pub pattern : String
  pub directions : List Direction

abbrev same_direction : Direction → Direction → Bool
same_direction input input = true
same_direction output output = true
same_direction description description = true
same_direction _ _ = false

abbrev pub applies : Direction → List Direction → Bool
applies d [] = false
applies d (e ∷ ds) = same_direction d e || applies d ds

abbrev all_directions : List Direction
all_directions = input ∷ output ∷ description ∷ []

abbrev input_only : List Direction
input_only = input ∷ []

abbrev input_and_desc : List Direction
input_and_desc = input ∷ description ∷ []

abbrev desc_and_output : List Direction
desc_and_output = description ∷ output ∷ []

-- A rule with the text of its pattern, which is compiled with IGNORECASE.
abbrev rule : String → String → List Direction → String → Rule
rule name category directions pattern = record {
  name = name;
  category = category;
  pattern = pattern;
  directions = directions;
}

abbrev secret_words : String
secret_words =
    "(?:secrets?|passwords?|credentials?|tokens?|api\\s*keys?|private\\s*keys?|ssh\\s*keys?)"

abbrev pub rules : List Rule
rules =
    rule "ignore_instructions" "prompt_injection" all_directions (
      "\\b(?:ignore|disregard|forget|override|bypass)\\s+"
      ++ "(?:(?:all|any|the|your|my|these|those|of)\\s+)*"
      ++ "(?:(?:previous|prior|above|earlier|preceding|system|safety|original|initial|other)\\s+)*"
      ++ "(?:instructions?|prompts?|rules?|guidelines?|directions?|polic(?:y|ies)|constraints?|restrictions?)\\b")
    ∷ rule "reveal_system_prompt" "prompt_injection" all_directions (
        "\\b(?:reveal|show|print|output|repeat|leak|display|disclose)\\b[^.]{0,30}"
        ++ "\\b(?:system\\s+prompt|hidden\\s+(?:instructions?|prompt)|initial\\s+(?:instructions?|prompt))\\b")
    ∷ rule "role_override" "prompt_injection" all_directions (
        "\\byou\\s+are\\s+now\\s+(?:an?\\s+)?(?:unrestricted|unfiltered|jailbroken|evil|dan\\b|free\\s+of|no\\s+longer\\s+bound)"
        ++ "|\\bnew\\s+instructions?\\s*:"
        ++ "|\\bfrom\\s+now\\s+on,?\\s+you\\s+(?:must|will|should|are|shall)\\b"
        ++ "|\\bact\\s+as\\s+(?:an?\\s+)?(?:unrestricted|unfiltered|jailbroken|dan)\\b")
    ∷ rule "hidden_directive_tag" "prompt_injection" all_directions
        "<\\s*/?\\s*(?:important|system|instructions?|admin|secret|override)\\s*>"
    ∷ rule "chat_template_token" "prompt_injection" all_directions
        "<\\|(?:im_start|im_end|system|assistant|user|endoftext)\\|>|\\[/?INST\\]"
    ∷ rule "conceal_from_user" "prompt_injection" all_directions (
        "\\b(?:do\\s+not|don['\\u2019]?t|never)\\s+(?:tell|inform|mention|reveal|show|notify|alert)\\b"
        ++ "[^.]{0,30}\\b(?:user|human|operator)\\b")
    ∷ rule "pre_use_directive" "prompt_injection" desc_and_output (
        "\\bbefore\\s+(?:using|calling|invoking|running)\\s+(?:this|the)\\s+tool\\b[^.]{0,100}"
        ++ "\\b(?:read|send|include|pass|open|access|attach|append)\\b")
    ∷ rule "send_secret_to" "exfiltration" all_directions (
        "\\b(?:send|post|upload|exfiltrat\\w*|forward|transmit|leak|email)\\b[^.]{0,40}\\b"
        ++ secret_words ++ "\\b[^.]{0,40}\\b(?:to|at|via)\\b")
    ∷ rule "exfiltrate_word" "exfiltration" input_and_desc "\\bexfiltrat(?:e|es|ed|ing|ion)\\b"
    ∷ rule "sensitive_path" "secret_access" all_directions (
        "(?<![\\w])(?:\\.env(?:\\.[\\w-]+)?|\\.ssh|\\.aws|\\.gnupg|\\.kube|\\.netrc|\\.npmrc|\\.pypirc|\\.git-credentials)(?![\\w-])"
        ++ "|\\bid_(?:rsa|dsa|ecdsa|ed25519)\\b(?!\\.pub)" ++ "|/etc/(?:passwd|shadow|sudoers)\\b"
        ++ "|/proc/self/environ\\b" ++ "|\\bcredentials\\.json\\b"
        ++ "|\\bsecrets?\\.(?:ya?ml|json)\\b")
    ∷ rule "aws_access_key" "secret_material" all_directions "\\b(?:AKIA|ASIA)[0-9A-Z]{16}\\b"
    ∷ rule "private_key_block" "secret_material" all_directions
        "-----BEGIN (?:[A-Z0-9]+ )*PRIVATE KEY(?: BLOCK)?-----"
    ∷ rule "service_token" "secret_material" all_directions (
        "\\bgh[pousr]_[A-Za-z0-9]{36,}\\b" ++ "|\\bgithub_pat_[A-Za-z0-9_]{22,}\\b"
        ++ "|\\bxox[abprs]-[A-Za-z0-9-]{10,}" ++ "|\\bsk-(?:ant-|proj-)?[A-Za-z0-9_-]{20,}"
        ++ "|\\beyJ[A-Za-z0-9_-]{8,}\\.eyJ[A-Za-z0-9_-]{8,}\\.[A-Za-z0-9_-]{8,}")
    ∷ rule "credential_assignment" "secret_material" all_directions (
        "\\b(?:api[_-]?key|secret[_-]?key|access[_-]?token|auth[_-]?token|client[_-]?secret|password|passwd)\\b"
        ++ "\\s*[:=]\\s*['\\\"]?[A-Za-z0-9/+_\\-]{12,}")
    ∷ rule "shell_chaining" "command_injection" input_only
        "(?:;|&&|\\|\\||\\|)\\s*(?:rm|curl|wget|nc|ncat|netcat|bash|sh|zsh|powershell|cmd|chmod|chown|dd|mkfs|sudo|scp)\\b"
    ∷ rule "command_substitution" "command_injection" input_only (
        "\\$\\(\\s*(?:rm|curl|wget|nc|bash|sh|cat|ls|id|whoami|env|printenv|echo|uname)\\b[^)]{0,200}\\)"
        ++ "|`\\s*(?:rm|curl|wget|nc|bash|sh|cat|ls|id|whoami|env|printenv|echo|uname)\\b[^`]{0,200}`")
    ∷ rule "destructive_rm" "command_injection" input_only "\\brm\\s+-[a-z]*[rf][a-z]*\\b"
    ∷ rule "download_and_execute" "command_injection" input_only
        "\\b(?:curl|wget)\\b[^|;&]{0,200}\\|\\s*(?:sudo\\s+)?(?:ba|z)?sh\\b"
    ∷ rule "reverse_shell" "command_injection" input_only
        "/dev/tcp/|\\bbash\\s+-i\\b|\\b(?:nc|ncat|netcat)\\b[^|;&]{0,40}\\s-[a-z]*e\\b"
    ∷ rule "path_traversal" "path_traversal" input_only "\\.\\.[/\\\\]"
    ∷ []

-- _RULES_BY_DIRECTION[direction]
unfoldable pub rules_for : Direction → List Rule
rules_for direction = keep (λ r. applies direction r.directions) rules
