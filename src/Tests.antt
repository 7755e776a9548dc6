-- ===== src/Tests.antt =====
-- Runs of the code of src/ on concrete inputs.
mod Toy
mod Configs
mod Formats
mod Texts
mod Blocks
mod Strings
mod Numbers
mod Breaks
mod Headers
