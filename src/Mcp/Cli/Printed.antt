-- ===== src/Mcp/Cli/Printed.antt =====
-- `parseArgs`, src/mcp/cli.ts, reads back the options that a command line is made of.
use aria_bridge.Prelude.{
  ◌==◌, Bool, true, false, Text, text, text_eq, includes, if◌then◌else◌, Option, none, some, List,
  [], ◌∷◌, ◌++◌, ◌≡◌, refl, ap, ◌∙◌, arith,
}
use aria_bridge.Value.{Number}
use aria_bridge.Mcp.Config.{McpOptions}
use aria_bridge.Mcp.Cli.{
  Outcome, given, no_options, split_commas, then_read, split_value, read_option, parse_args,
}

-- `parts.join(',')`.
unfoldable pub join_commas : List Text → Text
join_commas [] = []
join_commas (part ∷ []) = part
join_commas (part ∷ next ∷ parts) = part ++ 44 ∷ join_commas (next ∷ parts)

unfoldable pub has_comma : Text → Bool
has_comma [] = false
has_comma (c ∷ s) = if c == 44 then true else has_comma s

-- A list of at least one part, none with a comma in it.
pub data IsList : List Text → Type 0 where
  last : {part : Text} → has_comma part ≡ false → IsList (part ∷ [])
  more :
      {part next : Text} {parts : List Text}
      → has_comma part ≡ false
      → IsList (next ∷ parts)
      → IsList (part ∷ next ∷ parts)

split_commas-plain : (part : Text) → has_comma part ≡ false → split_commas part ≡ part ∷ []
unfolding split_commas has_comma
split_commas-plain [] h = refl
split_commas-plain (c ∷ s) h = ground (arith, split_commas-plain s)

split_commas-append :
    (part rest : Text)
    → has_comma part ≡ false
    → split_commas (part ++ 44 ∷ rest) ≡ part ∷ split_commas rest
unfolding split_commas has_comma
split_commas-append [] rest h = refl
split_commas-append (c ∷ s) rest h = ground (arith, split_commas-append s rest)

split_commas-join_commas :
    (parts : List Text) → IsList parts → split_commas (join_commas parts) ≡ parts
unfolding join_commas
split_commas-join_commas [] is = elim is [ ]
split_commas-join_commas (part ∷ []) (last h) = split_commas-plain part h
split_commas-join_commas (part ∷ next ∷ parts) (more h is) =
    split_commas-append part (join_commas (next ∷ parts)) h
    ∙ ap (λ ps. part ∷ ps) (split_commas-join_commas (next ∷ parts) is)

-- An option with its value, where there is one.
abbrev pub with_value : Text → Option Text → List Text → List Text
with_value name none rest = rest
with_value name (some v) rest = name ∷ v ∷ rest

abbrev pub joined : Option (List Text) → Option Text
joined none = none
joined (some parts) = some (join_commas parts)

abbrev pub when_debug : Bool → List Text
when_debug false = []
when_debug true = text "--debug" ∷ []

-- A command line for the options, with the text of the buffer's size.
abbrev pub command_line : McpOptions → Option Text → List Text
command_line o size = with_value (text "--workspace") o.workspace_path (
    with_value (text "--url") o.host_url (
      with_value (text "--secret") o.secret (
        with_value (text "--client-id") o.client_id (
          with_value (text "--levels") (joined o.levels) (
            with_value (text "--capabilities") (joined o.capabilities) (
              with_value (text "--llm-filter") o.llm_filter
                (with_value (text "--buffer-size") size (when_debug o.debug))))))))

abbrev pub numbered : (Text → Number) → Option Text → Option Number
numbered to_number none = none
numbered to_number (some v) = some (to_number v)

abbrev pub IsListed : Option (List Text) → Type 0
IsListed none = Unit
IsListed (some parts) = IsList parts

-- What a value sets, where there is one.
abbrev or_kept {ℓ} : {A : Type ℓ} → Option A → Option A → Option A
or_kept none kept = kept
or_kept (some v) kept = some v

module _ (to_number : Text → Number) (refusal : Text) where
  abbrev parse : List Text → McpOptions → Outcome
  parse args o = parse_args to_number refusal args o

  parse-workspace :
      (v : Option Text) (rest : List Text) (o : McpOptions)
      → parse (with_value (text "--workspace") v rest) o
        ≡ parse rest (record o { workspace_path = or_kept v o.workspace_path })
  unfolding parse_args read_option then_read text_eq includes
  parse-workspace none rest o = refl
  parse-workspace (some v) rest o = refl

  parse-url :
      (v : Option Text) (rest : List Text) (o : McpOptions)
      → parse (with_value (text "--url") v rest) o
        ≡ parse rest (record o { host_url = or_kept v o.host_url })
  unfolding parse_args read_option then_read text_eq includes
  parse-url none rest o = refl
  parse-url (some v) rest o = refl

  parse-secret :
      (v : Option Text) (rest : List Text) (o : McpOptions)
      → parse (with_value (text "--secret") v rest) o
        ≡ parse rest (record o { secret = or_kept v o.secret })
  unfolding parse_args read_option then_read text_eq includes
  parse-secret none rest o = refl
  parse-secret (some v) rest o = refl

  parse-client_id :
      (v : Option Text) (rest : List Text) (o : McpOptions)
      → parse (with_value (text "--client-id") v rest) o
        ≡ parse rest (record o { client_id = or_kept v o.client_id })
  unfolding parse_args read_option then_read text_eq includes
  parse-client_id none rest o = refl
  parse-client_id (some v) rest o = refl

  parse-levels :
      (ps : Option (List Text)) (rest : List Text) (o : McpOptions)
      → IsListed ps
      → parse (with_value (text "--levels") (joined ps) rest) o
        ≡ parse rest (record o { levels = or_kept ps o.levels })
  unfolding parse_args read_option then_read split_value text_eq includes
  parse-levels none rest o h = refl
  parse-levels (some ps) rest o h =
      ap (λ parts. parse rest (record o { levels = some parts })) (split_commas-join_commas ps h)

  parse-capabilities :
      (ps : Option (List Text)) (rest : List Text) (o : McpOptions)
      → IsListed ps
      → parse (with_value (text "--capabilities") (joined ps) rest) o
        ≡ parse rest (record o { capabilities = or_kept ps o.capabilities })
  unfolding parse_args read_option then_read split_value text_eq includes
  parse-capabilities none rest o h = refl
  parse-capabilities (some ps) rest o h =
      ap (λ parts. parse rest (record o { capabilities = some parts }))
        (split_commas-join_commas ps h)

  parse-llm_filter :
      (v : Option Text) (rest : List Text) (o : McpOptions)
      → parse (with_value (text "--llm-filter") v rest) o
        ≡ parse rest (record o { llm_filter = or_kept v o.llm_filter })
  unfolding parse_args read_option then_read text_eq includes
  parse-llm_filter none rest o = refl
  parse-llm_filter (some v) rest o = refl

  parse-buffer_size :
      (v : Option Text) (rest : List Text) (o : McpOptions)
      → parse (with_value (text "--buffer-size") v rest) o
        ≡ parse rest (record o { buffer_size = or_kept (numbered to_number v) o.buffer_size })
  unfolding parse_args read_option then_read text_eq includes
  parse-buffer_size none rest o = refl
  parse-buffer_size (some v) rest o = refl

  parse-debug :
      (b : Bool) (o : McpOptions)
      → o.debug ≡ false
      → parse (when_debug b) o ≡ given (record o { debug = b })
  unfolding parse_args read_option text_eq
  parse-debug false o h = ap (λ d. given (record o { debug = d })) h
  parse-debug true o h = refl

or_kept-none {ℓ} : {A : Type ℓ} (v : Option A) → or_kept v none ≡ v
or_kept-none none = refl
or_kept-none (some v) = refl

-- What a command line that is made of options gives back is these options, with the number that the
-- text of the buffer's size stands for, where the levels and the capabilities that are given are not
-- empty and have no comma in them.
pub parse_args-command_line :
    (to_number : Text → Number) (refusal : Text) (o : McpOptions) (size : Option Text)
    → IsListed o.levels
    → IsListed o.capabilities
    → parse_args to_number refusal (command_line o size) no_options
      ≡ given (record o { buffer_size = numbered to_number size })
parse_args-command_line to_number refusal o size l c =
    let o1 = record no_options { workspace_path = or_kept o.workspace_path none } in
    let o2 = record o1 { host_url = or_kept o.host_url none } in
    let o3 = record o2 { secret = or_kept o.secret none } in
    let o4 = record o3 { client_id = or_kept o.client_id none } in
    let o5 = record o4 { levels = or_kept o.levels none } in
    let o6 = record o5 { capabilities = or_kept o.capabilities none } in
    let o7 = record o6 { llm_filter = or_kept o.llm_filter none } in
    let o8 = record o7 { buffer_size = or_kept (numbered to_number size) none } in
    parse-workspace to_number refusal o.workspace_path _ no_options
    ∙ parse-url to_number refusal o.host_url _ o1
    ∙ parse-secret to_number refusal o.secret _ o2
    ∙ parse-client_id to_number refusal o.client_id _ o3
    ∙ parse-levels to_number refusal o.levels _ o4 l
    ∙ parse-capabilities to_number refusal o.capabilities _ o5 c
    ∙ parse-llm_filter to_number refusal o.llm_filter _ o6
    ∙ parse-buffer_size to_number refusal size _ o7
    ∙ parse-debug to_number refusal o.debug o8 refl
    ∙ rw
        (
          or_kept-none o.workspace_path,
          or_kept-none o.host_url,
          or_kept-none o.secret,
          or_kept-none o.client_id,
          or_kept-none o.levels,
          or_kept-none o.capabilities,
          or_kept-none o.llm_filter,
          or_kept-none (numbered to_number size),
        )
        refl
