-- ===== src/Email.antt =====
-- src/email/email.service.ts: a mail goes to the queue of the mail worker, which is not modelled. The
-- newest mail stands first in the outbox.
use nadbooks_backend.Prelude.{◌∷◌}
use nadbooks_backend.Effects.{World, Mail, Action, Void, modify}

abbrev pub post : Mail → World → World
post mail w = record w { outbox = mail ∷ w.outbox }

unfoldable pub send_email : Mail → Action Void
send_email mail = modify (post mail)
