-- ===== src/Chat/Prompt.antt =====
-- app/services/ai_context.py: what the model is told before a conversation. The fixed sentences are
-- Persian, and are a parameter.
use kasb_o_kar_hoshmand.Base.{
  ℕ, String, Bool, true, false, Option, none, some, List, [], ◌∷◌, ◌++◌, map, ◌==◌, if◌then◌else◌,
}
use kasb_o_kar_hoshmand.Base.Texts.{same_text}
use kasb_o_kar_hoshmand.Base.Chars.{Text, codes}
use kasb_o_kar_hoshmand.Models.{Product, ShopBot, ChannelKnowledge, TenantMode, sales, consultation}
use kasb_o_kar_hoshmand.Validators.{format_toman, printed}

pub record Sentences : Type 0 where
  pub guard_line : Text
  pub sales_instructions : Text
  pub consultation_instructions : Text
  pub services_intro : Text
  pub products_intro : Text
  pub no_products : Text
  pub knowledge_intro : Text
  pub sold_out : Text
  pub stock_before : Text
  pub stock_after : Text

-- a text that is neither None nor empty
abbrev pub filled : Option String → Option Text
filled none = none
filled (some s) = if same_text s "" then none else some (codes s)

abbrev pub join : Text → List Text → Text
join sep [] = []
join sep (t ∷ []) = t
join sep (t ∷ u ∷ us) = t ++ (sep ++ join sep (u ∷ us))

-- what a line says of the stock that is left
abbrev pub stock_note : Sentences → Option ℕ → Text
stock_note say none = []
stock_note say (some stock) =
    if stock == 0 then say.sold_out else say.stock_before ++ (printed stock ++ say.stock_after)

unfoldable pub product_line : Sentences → Product → Text
unfolding format_toman
product_line say p =
    codes "- "
    ++ (codes p.name
        ++ (codes " ("
            ++ (format_toman p.price_toman
                ++ (codes ")"
                    ++ ((elim (filled p.description) [ none ↦ [] | some text ↦ codes ": " ++ text ])
                        ++ stock_note say p.stock_quantity)))))

abbrev pub is_consultation : TenantMode → Bool
is_consultation sales = false
is_consultation consultation = true

-- a list under its heading, as one part of the prompt
abbrev pub listing : Text → List Text → List Text
listing heading [] = []
listing heading (l ∷ ls) = join (codes "\n") (heading ∷ l ∷ ls) ∷ []

-- the products, or that there are none
abbrev pub products_part : Sentences → TenantMode → List Product → List Text
products_part say mode [] = if is_consultation mode then [] else say.no_products ∷ []
products_part say mode (p ∷ ps) =
    listing (if is_consultation mode then say.services_intro else say.products_intro)
      (map (product_line say) (p ∷ ps))

unfoldable pub build_system_prompt :
    Sentences → ShopBot → List Product → List ChannelKnowledge → Option String → Text
unfolding product_line
build_system_prompt say shop_bot products channel_knowledge global_system_prompt =
    let global : List Text = elim (filled global_system_prompt) [ none ↦ [] | some t ↦ t ∷ [] ] in
    let instructions : Text = elim (filled shop_bot.ai_instructions) [
      | none ↦
          if is_consultation shop_bot.tenant_mode
          then say.consultation_instructions
          else say.sales_instructions
      | some t ↦ t
    ] in
    join (codes "\n\n") (
      global
      ++ (say.guard_line
          ∷ instructions
          ∷ (products_part say shop_bot.tenant_mode products
              ++ listing say.knowledge_intro
                  (map (λ e. codes "- " ++ codes e.text) channel_knowledge))))
