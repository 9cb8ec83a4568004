-- ===== src/SampleOld/Intro.antt =====
-- sample_old/intro: the samples that set up no tables.
use toshokan.SampleOld.Machine.{Step, ◌>>◌, hlt}
use toshokan.SampleOld.Common.{return_value}
use toshokan.SampleOld.Tables.{hello, bye, plain_puts}

-- sample_old/intro/001.
unfoldable pub greeting_main : Step
greeting_main = do plain_puts hello; plain_puts bye; return_value 0

-- sample_old/intro/011.
unfoldable pub waiting_main : Step
waiting_main = do plain_puts hello; hlt; plain_puts bye; return_value 0
