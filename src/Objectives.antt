-- ===== src/Objectives.antt =====
-- trainfer/objectives: what the losses do beside tensors. Inputs builds token rows and their labels,
-- Unlike and Safety are the surgical unlikelihood and its monitor, and Anchor is the KL anchor's choice
-- of text and of excluded tokens.
pub mod Inputs
pub mod Unlike
pub mod Safety
