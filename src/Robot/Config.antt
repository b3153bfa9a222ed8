-- ===== src/Robot/Config.antt =====
-- server/app/config.py, the settings that the handlers read.
use open_yzj.Prelude.{String}

pub record Settings : Type 0 where
  pub openai_api_base : String
  pub openai_api_key : String
  pub openai_model : String
  pub yunzhijia_webhook_url : String
  pub mys4s_secret_key : String
  pub mys4s_api_key : String
  pub mys4s_base_url : String
  pub base_url : String
  pub mys4s_card_template_id : String
