-- ===== src/Dispatch.antt =====
-- util/dispatcher.py with util/mapping.py and the parsing of commands in util/helpers.py: from a
-- raised event to the handlers that run and the waiting generators that receive it.
pub mod Mappings
pub mod Commands
pub mod EventMap
pub mod Fire
pub mod Wait
