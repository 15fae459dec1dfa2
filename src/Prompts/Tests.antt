-- ===== src/Prompts/Tests.antt =====
-- On app/prompts/assembly.py: a prompt with a budget of three tokens.
use ochestrate.Base.{[]}
use ochestrate.Text.{codes}
use ochestrate.Schemas.{auto}
use ochestrate.Prompts.{PromptAssemblyInput}

abbrev input : PromptAssemblyInput
input = record {
  system_policy = codes "be kind";
  task = codes "say hello to all";
  evidence = [];
  short_memory = [];
  long_memory = [];
  tools = [];
  skills = [];
  max_skill_items = 3;
  skill_context_mode = auto;
}
